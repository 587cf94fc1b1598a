-- ===== src/Uorb/Handles.antt =====
-- The handles of subscriptions: the callbacks of the topic are those of the live subscriptions.
use px4_rs.Prelude.{
  if-holds, ℕ, ◌≡◌, ◌+◌, ◌-◌, refl, sym, ap, ◌∙◌, Option, none, some, List, [], ◌∷◌, ◌==◌, arith,
  Bool, true, ==_iff, length, take, drop, length-append, length-take, length-drop, length-replicate,
}
use px4_rs.Workqueue.AtomicWaker.{new_waker, register}
use px4_rs.Workqueue.AtomicWaker.Alone.{register_lem}
use px4_rs.Uorb.Broker.{
  SubCb, Bus, copy, with_waker, send_sample, sub_cb_register, sub_cb_unregister, sub_cb_delete,
  sub_cb_update,
}
use px4_rs.Uorb.Client.{
  Publication, Outcome, new_bus, publish, publish_loaded, ensure_advertised, raw_publish, ensure_cb,
  ensure_registered, update_cb, try_recv, missed_count, take_lost, drop_subscription, delete_cb,
  register_waker, park, first_try, recv_poll,
}
use px4_rs.Uorb.Notifies.{
  Quiet, count, count-append, count-remove_self, count-remove_ne, notify_cb, notify-Quiet,
}

pub length-copy :
    (n : ℕ) (src dst : List ℕ) → length src ≡ n → length (copy n src dst) ≡ length dst - n + n
length-copy n src dst e =
    omega (arith, length-append (take n src) (drop n dst), length-take n src, length-drop n dst)

-- A live handle is listed once, a null one never.
abbrev pub held : Option SubCb → ℕ
held none = 0
held (some c) = 1

abbrev pub is_marked : Option SubCb → Bool
is_marked none = true
is_marked (some c) = c.registered

module _ {W : Type 0} where
  pub record IsValid (b : Bus W) : Type 0 where
    pub sized : length b.topic.sample ≡ b.topic.size
    pub quiet : Quiet b.subs
    pub listed : (i : ℕ) → count i b.topic.callbacks ≡ held (b.subs i).cb
    pub marked : (i : ℕ) → is_marked (b.subs i).cb ≡ true

  pub send_sample-IsValid :
      (d : List ℕ) (b : Bus W) → length d ≡ b.topic.size → IsValid b → IsValid (send_sample d b).0
  unfolding send_sample
  send_sample-IsValid d b e v = record {
    sized = omega (arith, length-copy b.topic.size d b.topic.sample e, v.sized);
    quiet = notify-Quiet b.topic.callbacks b.subs v.quiet;
    listed = λ i. v.listed i ∙ sym (ap held (notify_cb b.topic.callbacks b.subs i));
    marked = λ i. ap is_marked (notify_cb b.topic.callbacks b.subs i) ∙ v.marked i;
  }

  ensure_cb-IsValid :
      (i : ℕ) (b : Bus W) (o : Option SubCb)
      → (b.subs i).cb ≡ o
      → IsValid b
      → IsValid (ensure_cb i o b)
  unfolding ensure_cb sub_cb_register
  ensure_cb-IsValid i b (some c) e v = v
  ensure_cb-IsValid i b none e v = record {
    sized = v.sized;
    quiet = λ j. ground (arith, v.quiet i, v.quiet j);
    listed = λ j. ground (arith, count-append j b.topic.callbacks (i ∷ []), v.listed j, ap held e);
    marked = λ j. ground (arith, v.marked j);
  }

  pub ensure_registered-IsValid : (i : ℕ) (b : Bus W) → IsValid b → IsValid (ensure_registered i b)
  unfolding ensure_registered
  ensure_registered-IsValid i b v = ensure_cb-IsValid i b (b.subs i).cb refl v

  pub update_cb-IsValid :
      (i : ℕ) (o : Option SubCb) (dst : List ℕ) (b : Bus W)
      → (b.subs i).cb ≡ o
      → IsValid b
      → IsValid (update_cb i o dst b).0
  unfolding update_cb sub_cb_update
  update_cb-IsValid i none dst b e v = v
  update_cb-IsValid i (some c) dst b e v = record {
    sized = v.sized;
    quiet = λ j. ground (arith, v.quiet i, v.quiet j);
    listed = λ j. ground (arith, v.listed j, e);
    marked = λ j. ground (arith, v.marked i, v.marked j, e);
  }

  pub try_recv-IsValid : (i : ℕ) (b : Bus W) → IsValid b → IsValid (try_recv i b).0
  unfolding try_recv
  try_recv-IsValid i b v =
      update_cb-IsValid i _ [] (ensure_registered i b) refl (ensure_registered-IsValid i b v)

  delete_cb-IsValid :
      (i : ℕ) (b : Bus W) (o : Option SubCb)
      → (b.subs i).cb ≡ o
      → IsValid b
      → IsValid (delete_cb i o b)
  unfolding delete_cb sub_cb_delete sub_cb_unregister
  delete_cb-IsValid i b none e v = v
  delete_cb-IsValid i b (some c) e v = record {
    sized = ground (arith, live, v.sized);
    quiet = λ j. ground (arith, live, v.quiet i, v.quiet j);
    listed = λ j. ground (
      arith,
      live,
      v.listed j,
      count-remove_self i b.topic.callbacks,
      count-remove_ne i j b.topic.callbacks,
    );
    marked = λ j. ground (arith, live, v.marked j);
  }
    where
      live : c.registered ≡ true
      live = sym (ap is_marked e) ∙ v.marked i

  pub drop_subscription-IsValid : (i : ℕ) (b : Bus W) → IsValid b → IsValid (drop_subscription i b)
  unfolding drop_subscription
  drop_subscription-IsValid i b v = delete_cb-IsValid i b (b.subs i).cb refl v

  pub parked-IsValid :
      (i : ℕ) (w : W) (b : Bus W)
      → IsValid b
      → IsValid (record b { subs = with_waker b.subs i (register w (b.subs i).waker).0 })
  parked-IsValid i w b v = record {
    sized = v.sized;
    quiet = λ j.
        ground
          (arith, v.quiet j, ap (λ r. r.0.state) (register_lem w (b.subs i).waker (v.quiet i)));
    listed = λ j. ground (arith, v.listed j);
    marked = λ j. ground (arith, v.marked j);
  }

  first_try-IsValid :
      (i : ℕ) (w : W) (b : Bus W) (o : Option (List ℕ)) → IsValid b → IsValid (first_try i w b o).0
  unfolding first_try park
  first_try-IsValid i w b (some d) v = v
  first_try-IsValid i w b none v = try_recv-IsValid i _ (parked-IsValid i w b v)

  pub recv_poll-IsValid : (i : ℕ) (w : W) (b : Bus W) → IsValid b → IsValid (recv_poll i w b).0
  unfolding recv_poll
  recv_poll-IsValid i w b v =
      first_try-IsValid i w (try_recv i b).0 (try_recv i b).1 (try_recv-IsValid i b v)

  register_waker-IsValid :
      (i : ℕ) (w : W) (b : Bus W) → IsValid b → IsValid (register_waker i w b).0
  unfolding register_waker
  register_waker-IsValid i w b v =
      parked-IsValid i w (ensure_registered i b) (ensure_registered-IsValid i b v)

  take_lost-IsValid :
      (i : ℕ) (b : Bus W) (o : Option SubCb)
      → (b.subs i).cb ≡ o
      → IsValid b
      → IsValid (take_lost i o b).0
  take_lost-IsValid i b none e v = v
  take_lost-IsValid i b (some c) e v = record {
    sized = v.sized;
    quiet = λ j. ground (arith, v.quiet i, v.quiet j);
    listed = λ j. ground (arith, v.listed j, e);
    marked = λ j. ground (arith, v.marked i, v.marked j, e);
  }

  ensure_advertised-IsValid :
      (d : List ℕ) (p : Publication) (b : Bus W)
      → length d ≡ b.topic.size
      → IsValid b
      → IsValid (ensure_advertised d p b).1
  unfolding ensure_advertised
  ensure_advertised-IsValid d p b e v =
      if-holds (λ (r : Publication × Bus W × List W). IsValid r.1) p.handle (λ h. v)
        (λ h. send_sample-IsValid d b e v)

  publish_loaded-IsValid :
      (d : List ℕ) (p : Publication) (b : Bus W)
      → length d ≡ b.topic.size
      → IsValid b
      → IsValid (publish_loaded d p b).bus
  unfolding publish_loaded
  publish_loaded-IsValid d p b e v =
      if-holds (λ (r : Outcome W). IsValid r.bus) p.handle (λ h. send_sample-IsValid d b e v)
        (λ h. v)

  size_kept :
      (d : List ℕ) (p : Publication) (b : Bus W)
      → (ensure_advertised d p b).1.topic.size ≡ b.topic.size
  unfolding ensure_advertised send_sample
  size_kept d p b = ground arith

  raw_publish-IsValid :
      (d : List ℕ) (p : Publication) (b : Bus W)
      → p.o_size ≡ b.topic.size
      → IsValid b
      → IsValid (raw_publish d p b).bus
  unfolding raw_publish publish
  raw_publish-IsValid d p b e v =
      if-holds (λ (r : Outcome W). IsValid r.bus) (length d == p.o_size)
        (λ h.
          publish_loaded-IsValid d (ensure_advertised d p b).0 (ensure_advertised d p b).1
            ((==_iff (length d) p.o_size).0 h ∙ (e ∙ sym (size_kept d p b)))
            (ensure_advertised-IsValid d p b ((==_iff (length d) p.o_size).0 h ∙ e) v))
        (λ h. v)

-- The calls on a topic; a publication is given by whether it has advertised.
pub data Call (W : Type 0) : Type 0 where
  publishes : List ℕ → Bool → Call W
  receives : ℕ → Call W
  polls : ℕ → W → Call W
  registers : ℕ → W → Call W
  counts : ℕ → Call W
  drops : ℕ → Call W

module _ {W : Type 0} where
  abbrev pub call : Call W → Bus W → Bus W
  call (publishes d h) b = (raw_publish d (record { handle = h; o_size = b.topic.size }) b).bus
  call (receives i) b = (try_recv i b).0
  call (polls i w) b = (recv_poll i w b).0
  call (registers i w) b = (register_waker i w b).0
  call (counts i) b = (missed_count i b).0
  call (drops i) b = drop_subscription i b

  abbrev pub run : List (Call W) → Bus W → Bus W
  run [] b = b
  run (c ∷ cs) b = run cs (call c b)

  call-IsValid : (c : Call W) (b : Bus W) → IsValid b → IsValid (call c b)
  call-IsValid (publishes d h) b v = raw_publish-IsValid d _ b refl v
  call-IsValid (receives i) b v = try_recv-IsValid i b v
  call-IsValid (polls i w) b v = recv_poll-IsValid i w b v
  call-IsValid (registers i w) b v = register_waker-IsValid i w b v
  call-IsValid (counts i) b v = take_lost-IsValid i b (b.subs i).cb refl v
  call-IsValid (drops i) b v = drop_subscription-IsValid i b v

  new_bus-IsValid : (size : ℕ) → IsValid (new_bus {W = W} size)
  unfolding new_waker
  new_bus-IsValid size = record {
    sized = length-replicate size 0;
    quiet = λ i. refl;
    listed = λ i. refl;
    marked = λ i. refl;
  }

  run_from-IsValid : (cs : List (Call W)) (b : Bus W) → IsValid b → IsValid (run cs b)
  run_from-IsValid [] b v = v
  run_from-IsValid (c ∷ cs) b v = run_from-IsValid cs (call c b) (call-IsValid c b v)

  -- After any sequence of calls on a new topic the stored sample has the size of the topic, no call
  -- is left inside the store of a waker, every live handle is marked as registered, and the list of
  -- callbacks holds each live handle once and no handle that was deleted.
  pub run-IsValid : (size : ℕ) (cs : List (Call W)) → IsValid (run cs (new_bus size))
  run-IsValid size cs = run_from-IsValid cs (new_bus size) (new_bus-IsValid size)
