-- ===== src/Uorb/Broker.antt =====
-- crates/px4-uorb/src/ffi.rs, module `mock`: the broker of the host, one topic of it.
--
-- The map from names to topics is in Topics. A message is a list of
-- bytes. A handle of `sub_cb_new` is the number of the subscription that owns it, so the list of
-- callbacks holds numbers and the context of a callback is the waker of that subscription. Each call
-- is one step: the locks of the broker make it so. `copy` is `copy_nonoverlapping` of n bytes.
use px4_rs.Prelude.{
  ℕ, ◌+◌, ◌-◌, ◌%◌, min, ◌==◌, ltb, Bool, true, false, Option, none, some, List, [], ◌∷◌, ◌++◌,
  if◌then◌else◌, take, drop, replicate, update,
}
use px4_rs.Workqueue.AtomicWaker.{AtomicWaker, wake}

pub record TopicState : Type 0 where
  pub size : ℕ
  pub seq : ℕ
  pub sample : List ℕ
  pub callbacks : List ℕ

-- `SubCbInner`, without the context and the topic.
pub record SubCb : Type 0 where
  pub last_seen : ℕ
  pub registered : Bool
  pub lost : ℕ

-- `Subscription` and `RawSubscription`: `cb` is `none` while the pointer is null.
pub record Subscription (W : Type 0) : Type 0 where
  pub cb : Option SubCb
  pub waker : AtomicWaker W
  pub o_size : ℕ

pub record Bus (W : Type 0) : Type 0 where
  pub topic : TopicState
  pub subs : ℕ → Subscription W

abbrev pub u32_range : ℕ
u32_range = 4294967296

abbrev pub u64_range : ℕ
u64_range = 18446744073709551616

abbrev pub copy : ℕ → List ℕ → List ℕ → List ℕ
copy n src dst = take n src ++ drop n dst

-- `retain` of the callbacks other than `i`.
abbrev pub remove : ℕ → List ℕ → List ℕ
remove i [] = []
remove i (j ∷ js) = if i == j then remove i js else j ∷ remove i js

-- The entry that `topic_for` inserts.
abbrev pub new_topic : ℕ → TopicState
new_topic size = record { size = size; seq = 0; sample = replicate size 0; callbacks = [] }

abbrev pub prepend : {W : Type 0} → Option W → List W → List W
prepend none ws = ws
prepend (some w) ws = w ∷ ws

abbrev pub write_sample : List ℕ → TopicState → TopicState
write_sample d t = record t { sample = copy t.size d t.sample; seq = (t.seq + 1) % u64_range }

-- `sub_cb_new`
abbrev pub new_sub_cb : SubCb
new_sub_cb = record { last_seen = 0; registered = false; lost = 0 }

module _ {W : Type 0} where
  abbrev pub with_waker : (ℕ → Subscription W) → ℕ → AtomicWaker W → ℕ → Subscription W
  with_waker subs i m = update subs i (record (subs i) { waker = m })

  abbrev pub with_cb : (ℕ → Subscription W) → ℕ → Option SubCb → ℕ → Subscription W
  with_cb subs i o = update subs i (record (subs i) { cb = o })

  -- `notify`: every callback in turn wakes its subscription; the wakers that were invoked.
  unfoldable pub notify : List ℕ → (ℕ → Subscription W) → (ℕ → Subscription W) × List W
  notify [] subs = (subs, [])
  notify (i ∷ is) subs =
      let (m, o) = wake (subs i).waker in
      let (subs', ws) = notify is (with_waker subs i m) in (subs', prepend o ws)

  -- What `advertise` and `publish` do to the topic: write the sample, count it, run the callbacks.
  unfoldable pub send_sample : List ℕ → Bus W → Bus W × List W
  send_sample d b =
      let (subs', ws) = notify b.topic.callbacks b.subs in
      (record { topic = write_sample d b.topic; subs = subs' }, ws)

  -- `publish`, with its status.
  abbrev pub publish_status : List ℕ → Bus W → ℕ × Bus W × List W
  publish_status d b = let (b', ws) = send_sample d b in (0, b', ws)

  -- `sub_cb_register`, on the handle `c` of subscription `i`.
  unfoldable pub sub_cb_register : ℕ → SubCb → Bus W → Bus W
  sub_cb_register i c b =
      if c.registered then record b { subs = with_cb b.subs i (some c) } else record {
        topic = record b.topic { callbacks = b.topic.callbacks ++ (i ∷ []) };
        subs = with_cb b.subs i (some (record c { registered = true }));
      }

  -- `sub_cb_unregister`
  unfoldable pub sub_cb_unregister : ℕ → SubCb → Bus W → Bus W
  sub_cb_unregister i c b =
      if c.registered
      then record {
        topic = record b.topic { callbacks = remove i b.topic.callbacks };
        subs = with_cb b.subs i (some (record c { registered = false }));
      }
      else record b { subs = with_cb b.subs i (some c) }

  -- `sub_cb_delete`: the handle is gone.
  unfoldable pub sub_cb_delete : ℕ → SubCb → Bus W → Bus W
  unfolding sub_cb_unregister
  sub_cb_delete i c b =
      let b' = sub_cb_unregister i c b in record b' { subs = with_cb b'.subs i none }

-- `fetch_add` on the counter of lost messages.
unfoldable pub add_lost : ℕ → ℕ → ℕ
add_lost skipped lost =
    if ltb 0 skipped then (lost + min skipped (u32_range - 1)) % u32_range else lost

-- `sub_cb_update`: `none` for false, `some` of the filled buffer for true.
unfoldable pub sub_cb_update : TopicState → SubCb → List ℕ → SubCb × Option (List ℕ)
unfolding add_lost
sub_cb_update t c dst =
    if ltb c.last_seen t.seq
    then (
      record c { last_seen = t.seq; lost = add_lost (t.seq - c.last_seen - 1) c.lost },
      some (copy t.size t.sample dst),
    )
    else (c, none)

-- `sub_cb_lost_take`
abbrev pub sub_cb_lost_take : SubCb → SubCb × ℕ
sub_cb_lost_take c = (record c { lost = 0 }, c.lost)
