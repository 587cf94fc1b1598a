-- ===== src/Uorb/Wakeup.antt =====
-- A task that waits in `Recv` for the next message of a topic.
use native.Mathlib.Nat.{mod-eq_of_lt}
use mathlib.Core.List.{Mem, mem-append_left}
use px4_rs.Prelude.{
  ℕ, ◌≡◌, ◌≤◌, ◌<◌, ◌+◌, refl, sym, ap, ◌∙◌, Option, none, some, List, arith, Bool, true, false,
  if-true, length, lt→ltb, update_self,
}
use px4_rs.Workqueue.AtomicWaker.{register}
use px4_rs.Workqueue.AtomicWaker.Alone.{register_lem}
use px4_rs.Uorb.Broker.{Bus, with_waker, send_sample, u64_range}
use px4_rs.Uorb.Client.{
  Publication, Outcome, ok, try_recv, park, first_try, recv_poll, publish, publish_loaded,
  ensure_advertised,
}
use px4_rs.Uorb.Notifies.{notify_cb, notify_wakes}
use px4_rs.Uorb.Handles.{IsValid, held, try_recv-IsValid, send_sample-IsValid, recv_poll-IsValid}
use px4_rs.Uorb.Delivery.{seen, try_recv_lem, copy_over, copy_fresh}

module _ {W : Type 0} where
  -- What a poll of `Recv` leaves when it is pending.
  record Parked (i : ℕ) (w : W) (b b' : Bus W) : Type 0 where
    stored : (b'.subs i).waker.waker ≡ some w
    live : held (b'.subs i).cb ≡ 1
    behind : seen (b'.subs i).cb ≤ b'.topic.seq
    same_seq : b'.topic.seq ≡ b.topic.seq
    same_size : b'.topic.size ≡ b.topic.size

  park_lem :
      (i : ℕ) (w : W) (b : Bus W)
      → IsValid b
      → seen (b.subs i).cb ≤ b.topic.seq
      → Parked i w b (park i w b).0
  unfolding park
  park_lem i w b v h =
      let m = register_lem w (b.subs i).waker (v.quiet i) in
      let b' = record b { subs = with_waker b.subs i (register w (b.subs i).waker).0 } in
      let t = try_recv_lem i b' in
      record {
        stored =
            ap (λ r. r.waker) t.same_waker
            ∙ (ap (λ s. s.waker.waker) (update_self b.subs i _) ∙ ap (λ r. r.0.waker) m);
        live = t.live;
        behind = ground (
          arith,
          t.sees,
          t.same_seq,
          ap (λ s. seen s.cb)
              (update_self b.subs i
                (record (b.subs i) { waker = (register w (b.subs i).waker).0 })),
          h,
        );
        same_seq = t.same_seq;
        same_size = t.same_size;
      }

  first_try_pending :
      (i : ℕ) (w : W) (b : Bus W) (o : Option (List ℕ))
      → IsValid b
      → seen (b.subs i).cb ≤ b.topic.seq
      → (first_try i w b o).1 ≡ none
      → Parked i w b (first_try i w b o).0
  unfolding first_try
  first_try_pending i w b (some d) v h e = absurd (ground arith)
  first_try_pending i w b none v h e = park_lem i w b v h

  recv_poll_pending :
      (i : ℕ) (w : W) (b : Bus W)
      → IsValid b
      → seen (b.subs i).cb ≤ b.topic.seq
      → (recv_poll i w b).1 ≡ none
      → Parked i w b (recv_poll i w b).0
  unfolding recv_poll
  recv_poll_pending i w b v h e =
      let t = try_recv_lem i b in
      let r =
        first_try_pending i w (try_recv i b).0 (try_recv i b).1 (try_recv-IsValid i b v)
          (ground (arith, t.sees, t.same_seq)) e in
      record {
        stored = r.stored;
        live = r.live;
        behind = r.behind;
        same_seq = r.same_seq ∙ t.same_seq;
        same_size = r.same_size ∙ t.same_size;
      }

  -- A subscription that has not seen the latest message receives it.
  pub recv_poll_ready :
      (i : ℕ) (w : W) (b : Bus W)
      → IsValid b
      → seen (b.subs i).cb < b.topic.seq
      → (recv_poll i w b).1 ≡ some b.topic.sample
  unfolding recv_poll first_try
  recv_poll_ready i w b v h =
      ap (λ o. (first_try i w (try_recv i b).0 o).1)
        ((try_recv_lem i b).result
          ∙ (if-true _ _ (lt→ltb _ _ h) ∙ ap some (copy_fresh b.topic.size b.topic.sample v.sized)))

  -- What sending a sample does to the topic and to subscription `i`.
  pub record Sent (d : List ℕ) (i : ℕ) (b b' : Bus W) : Type 0 where
    pub valid : IsValid b'
    pub sample : b'.topic.sample ≡ d
    pub seq : b'.topic.seq ≡ b.topic.seq + 1
    pub same_size : b'.topic.size ≡ b.topic.size
    pub same_cb : (b'.subs i).cb ≡ (b.subs i).cb

  pub send_sample_lem :
      (d : List ℕ) (i : ℕ) (b : Bus W)
      → IsValid b
      → length d ≡ b.topic.size
      → b.topic.seq + 1 < u64_range
      → Sent d i b (send_sample d b).0
  unfolding send_sample
  send_sample_lem d i b v e h = record {
    valid = send_sample-IsValid d b e v;
    sample = copy_over b.topic.size d b.topic.sample e v.sized;
    seq = mod-eq_of_lt h;
    same_size = refl;
    same_cb = notify_cb b.topic.callbacks b.subs i;
  }

  send_sample_wakes :
      (d : List ℕ) (i : ℕ) (w : W) (b : Bus W)
      → IsValid b
      → held (b.subs i).cb ≡ 1
      → (b.subs i).waker.waker ≡ some w
      → Mem w (send_sample d b).1
  unfolding send_sample
  send_sample_wakes d i w b v e h =
      notify_wakes b.topic.callbacks b.subs i w v.quiet (omega (arith, v.listed i, e)) h

  -- What a publish does for a parked task, whether or not the topic was advertised.
  record Delivers (d : List ℕ) (i : ℕ) (w : W) (o : Outcome W) : Type 0 where
    fine : o.result ≡ ok
    woken : Mem w o.woke
    valid : IsValid o.bus
    sample : o.bus.topic.sample ≡ d
    ahead : seen (o.bus.subs i).cb < o.bus.topic.seq

  publish_lem :
      (d : List ℕ) (h : Bool) (n i : ℕ) (w : W) (b : Bus W)
      → IsValid b
      → length d ≡ b.topic.size
      → b.topic.seq + 2 < u64_range
      → held (b.subs i).cb ≡ 1
      → (b.subs i).waker.waker ≡ some w
      → seen (b.subs i).cb ≤ b.topic.seq
      → Delivers d i w (publish d (record { handle = h; o_size = n }) b)
  unfolding publish publish_loaded ensure_advertised
  publish_lem d true n i w b v e r l k s =
      let t = send_sample_lem d i b v e (omega arith) in
      record {
        fine = refl;
        woken = send_sample_wakes d i w b v l k;
        valid = t.valid;
        sample = t.sample;
        ahead = ground (arith, t.seq, ap seen t.same_cb, s);
      }
  publish_lem d false n i w b v e r l k s =
      let b1 = (send_sample d b).0 in
      let t = send_sample_lem d i b v e (omega arith) in
      let t' = send_sample_lem d i b1 t.valid (e ∙ sym t.same_size) (omega (arith, t.seq)) in
      record {
        fine = refl;
        woken =
            mem-append_left (send_sample d (send_sample d b).0).1 (send_sample_wakes d i w b v l k);
        valid = t'.valid;
        sample = t'.sample;
        ahead = ground (arith, t.seq, t'.seq, ap seen t.same_cb, ap seen t'.same_cb, s);
      }

  -- On a valid topic whose sequence number is not about to wrap, and for a subscription that has not
  -- seen more than was sent: if the poll of its `recv` is pending, then a publish of a message of the
  -- right size, by a publication that has advertised or not, succeeds, wakes the task of that poll,
  -- and the next poll returns the message.
  pub pending-woken :
      (i : ℕ) (w w' : W) (b : Bus W) (d : List ℕ) (p : Publication)
      → IsValid b
      → length d ≡ b.topic.size
      → b.topic.seq + 2 < u64_range
      → seen (b.subs i).cb ≤ b.topic.seq
      → (recv_poll i w b).1 ≡ none
      → ((publish d p (recv_poll i w b).0).result ≡ ok)
        × Mem w (publish d p (recv_poll i w b).0).woke
        × ((recv_poll i w' (publish d p (recv_poll i w b).0).bus).1 ≡ some d)
  pending-woken i w w' b d p v e r s n =
      let k = recv_poll_pending i w b v s n in
      let o =
        publish_lem d p.handle p.o_size i w (recv_poll i w b).0 (recv_poll-IsValid i w b v)
          (e ∙ sym k.same_size) (omega (arith, k.same_seq)) k.live k.stored k.behind in
      (o.fine, o.woken, recv_poll_ready i w' _ o.valid o.ahead ∙ ap some o.sample)
