-- ===== src/Uorb/Client.antt =====
-- crates/px4-uorb/src/pub_.rs, sub.rs and raw.rs: publications and subscriptions. Each call is one
-- step, except that `publish` is written in the two parts between which another thread may come.
-- `handle` says whether the pointer of a publication is not null.
use px4_rs.Prelude.{
  ℕ, ◌==◌, ltb, length, Bool, true, false, Option, none, some, List, [], ◌++◌, if◌then◌else◌,
}
use px4_rs.Workqueue.AtomicWaker.{new_waker, register}
use px4_rs.Uorb.Broker.{
  SubCb, Subscription, Bus, with_cb, with_waker, send_sample, publish_status, new_sub_cb,
  sub_cb_register, sub_cb_delete, sub_cb_update, sub_cb_lost_take, new_topic,
}

pub record Publication : Type 0 where
  pub handle : Bool
  pub o_size : ℕ

-- `Result<(), RawPubError>`; `undefined` is a publish through a null handle.
pub data Published : Type 0 where
  ok failed size_mismatch undefined : Published

pub record Outcome (W : Type 0) : Type 0 where
  pub result : Published
  pub publication : Publication
  pub bus : Bus W
  pub woke : List W

abbrev pub from_status : ℕ → Published
from_status rc = if rc == 0 then ok else failed

-- `Publication::new`
abbrev pub new_publication : ℕ → Publication
new_publication size = record { handle = false; o_size = size }

-- `unadvertise`, and the drop of a publication.
abbrev pub unadvertise : Publication → Publication
unadvertise p = record p { handle = false }

module _ {W : Type 0} where
  -- `Subscription::new`
  abbrev pub new_subscription : ℕ → Subscription W
  new_subscription size = record { cb = none; waker = new_waker; o_size = size }

  abbrev pub new_bus : ℕ → Bus W
  new_bus size = record { topic = new_topic size; subs = λ _. new_subscription size }

  unfoldable pub ensure_advertised : List ℕ → Publication → Bus W → Publication × Bus W × List W
  ensure_advertised d p b =
      if p.handle
      then (p, b, [])
      else (let (b', ws) = send_sample d b in (record p { handle = true }, b', ws))

  -- `Publication::advertise_multi`: the broker of the host writes back the instance that it is given.
  unfoldable pub advertise_multi :
      {I : Type 0} → List ℕ → I → Publication → Bus W → I × Publication × Bus W × List W
  advertise_multi d requested p b =
      if p.handle
      then (requested, p, b, [])
      else (let (b', ws) = send_sample d b in (requested, record p { handle = true }, b', ws))

  -- `RawPublication::advertise_multi`: `none` for `SizeMismatch`.
  unfoldable pub raw_advertise_multi :
      {I : Type 0} → List ℕ → I → Publication → Bus W → Option I × Publication × Bus W × List W
  unfolding advertise_multi
  raw_advertise_multi d requested p b =
      if length d == p.o_size
      then (let (i, p', b', ws) = advertise_multi d requested p b in (some i, p', b', ws))
      else (none, p, b, [])

  -- The rest of `publish`, from the load of the handle.
  unfoldable pub publish_loaded : List ℕ → Publication → Bus W → Outcome W
  publish_loaded d p b =
      if p.handle
      then (let (rc, b', ws) = publish_status d b in
          record { result = from_status rc; publication = p; bus = b'; woke = ws })
      else record { result = undefined; publication = p; bus = b; woke = [] }

  -- `Publication::publish`
  unfoldable pub publish : List ℕ → Publication → Bus W → Outcome W
  unfolding ensure_advertised publish_loaded
  publish d p b =
      let (p', b', ws) = ensure_advertised d p b in
      let o = publish_loaded d p' b' in record o { woke = ws ++ o.woke }

  -- `RawPublication::publish`
  unfoldable pub raw_publish : List ℕ → Publication → Bus W → Outcome W
  unfolding publish
  raw_publish d p b =
      if length d == p.o_size
      then publish d p b
      else record { result = size_mismatch; publication = p; bus = b; woke = [] }

  -- `ensure_registered`, on the pointer that it finds.
  unfoldable pub ensure_cb : ℕ → Option SubCb → Bus W → Bus W
  unfolding sub_cb_register
  ensure_cb i none b = sub_cb_register i new_sub_cb b
  ensure_cb i (some c) b = b

  unfoldable pub ensure_registered : ℕ → Bus W → Bus W
  unfolding ensure_cb
  ensure_registered i b = ensure_cb i (b.subs i).cb b

  -- The rest of `try_recv`, on the handle and a buffer.
  unfoldable pub update_cb : ℕ → Option SubCb → List ℕ → Bus W → Bus W × Option (List ℕ)
  update_cb i none dst b = (b, none)
  update_cb i (some c) dst b =
      let (c', got) = sub_cb_update b.topic c dst in
      (record b { subs = with_cb b.subs i (some c') }, got)

  -- `Subscription::try_recv`, into an uninitialised buffer.
  unfoldable pub try_recv : ℕ → Bus W → Bus W × Option (List ℕ)
  unfolding ensure_registered update_cb
  try_recv i b = let b' = ensure_registered i b in update_cb i (b'.subs i).cb [] b'

  -- `RawSubscription::try_recv`: a buffer that is too short is refused.
  unfoldable pub raw_try_recv : ℕ → List ℕ → Bus W → Bus W × Option (List ℕ)
  unfolding ensure_registered update_cb
  raw_try_recv i buf b =
      if ltb (length buf) (b.subs i).o_size
      then (b, none)
      else (let b' = ensure_registered i b in update_cb i (b'.subs i).cb buf b')

  abbrev pub take_lost : ℕ → Option SubCb → Bus W → Bus W × ℕ
  take_lost i none b = (b, 0)
  take_lost i (some c) b =
      let (c', n) = sub_cb_lost_take c in (record b { subs = with_cb b.subs i (some c') }, n)

  -- `RawSubscription::missed_count`
  abbrev pub missed_count : ℕ → Bus W → Bus W × ℕ
  missed_count i b = take_lost i (b.subs i).cb b

  unfoldable pub delete_cb : ℕ → Option SubCb → Bus W → Bus W
  unfolding sub_cb_delete
  delete_cb i none b = b
  delete_cb i (some c) b = sub_cb_delete i c b

  -- The drop of a subscription.
  unfoldable pub drop_subscription : ℕ → Bus W → Bus W
  unfolding delete_cb
  drop_subscription i b = delete_cb i (b.subs i).cb b

  -- `register_waker`: the bus, and the waker that `register` invoked.
  unfoldable pub register_waker : ℕ → W → Bus W → Bus W × Option W
  register_waker i w b =
      let b' = ensure_registered i b in
      let (m, o) = register w (b'.subs i).waker in (record b' { subs = with_waker b'.subs i m }, o)

  -- `Recv::poll`: `none` for Pending. What follows a first attempt that found nothing.
  unfoldable pub park : ℕ → W → Bus W → Bus W × Option (List ℕ)
  park i w b =
      let (m, o) = register w (b.subs i).waker in
      try_recv i (record b { subs = with_waker b.subs i m })

  unfoldable pub first_try : ℕ → W → Bus W → Option (List ℕ) → Bus W × Option (List ℕ)
  unfolding park
  first_try i w b none = park i w b
  first_try i w b (some d) = (b, some d)

  unfoldable pub recv_poll : ℕ → W → Bus W → Bus W × Option (List ℕ)
  unfolding first_try
  recv_poll i w b = let (b', got) = try_recv i b in first_try i w b' got
