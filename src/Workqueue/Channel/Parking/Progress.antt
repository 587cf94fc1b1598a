-- ===== src/Workqueue/Channel/Parking/Progress.antt =====
-- What a task that is parked can rely on.
use mathlib.Core.Path.{subst}
use native.Mathlib.Nat.{mod_self}
use px4_rs.Prelude.{
  ℕ, ◌%◌, ◌<◌, ◌≡◌, ◌≢◌, ◌⊎◌, inl, inr, ap, ◌∙◌, arith, ◌||◌, true, false, List, leb,
}
use px4_rs.Workqueue.Channel.{wrapping_sub}
use px4_rs.Workqueue.Channel.Flow.{Sender, Receiver, Turn}
use px4_rs.Workqueue.Channel.Parking.{Attempt, parked, Parties, new_parties, run_parties}
use px4_rs.Workqueue.Channel.Parking.Alert.{send_wakes, recv_wakes, RecvReady, SendReady}
use px4_rs.Workqueue.Channel.Parking.Parked.{parties-BothReady}

module _ (usize_mod capacity : ℕ) {T : Type 0} (ts : List (Turn T)) where
  abbrev reached : Parties T
  reached = run_parties usize_mod capacity ts (new_parties usize_mod capacity)

  abbrev IsFull : Parties T → Type 0
  IsFull s = leb capacity (wrapping_sub usize_mod s.flow.tail s.flow.head) ≡ true

  recv_parked :
      (u : Unit {0})
      → reached.receiving.attempt ≡ parked u
      → (reached.flow.receiver ≡ Receiver.away)
        × ((reached.flow.head ≡ reached.flow.tail)
            ⊎ ((send_wakes reached.flow.sender || reached.receiving.woken) ≡ true))
  recv_parked u e =
      let s = reached in
      let r =
        subst
          (λ (a : Attempt (Unit {0})).
            RecvReady usize_mod capacity a s.flow.receiver s.flow.head s.flow.tail
              (send_wakes s.flow.sender || s.receiving.woken)
              (s.receiving.registered || s.receiving.woken))
          e (parties-BothReady usize_mod capacity ts).1 in
      (r.0, r.2)

  send_parked :
      (v : T)
      → reached.sending.attempt ≡ parked v
      → (reached.flow.sender ≡ Sender.away)
        × (IsFull reached ⊎ ((recv_wakes reached.flow.receiver || reached.sending.woken) ≡ true))
  send_parked v e =
      let s = reached in
      let r =
        subst
          (λ (a : Attempt T).
            SendReady usize_mod capacity a s.flow.sender s.flow.head s.flow.tail
              (recv_wakes s.flow.receiver || s.sending.woken)
              (s.sending.registered || s.sending.woken))
          e (parties-BothReady usize_mod capacity ts).0 in
      (r.0, r.2)

  full_nonempty :
      0 < capacity → 0 < usize_mod → (s : Parties T) → IsFull s → s.flow.head ≢ s.flow.tail
  full_nonempty some_room some_range s full e =
      let z : wrapping_sub usize_mod s.flow.tail s.flow.head ≡ 0 =
        ap (wrapping_sub usize_mod s.flow.tail) e
        ∙ (ap (λ k. k % usize_mod) (omega arith) ∙ mod_self usize_mod) in
      ground (arith, z)

  -- If the task that polls Recv is parked after any turns of the two tasks on a new channel, and the
  -- channel is not empty, then it was woken since its last poll began, or the task that polls Send has
  -- stored a value and is about to wake it.
  pub receiver_alert :
      (u : Unit {0})
      → reached.receiving.attempt ≡ parked u
      → reached.flow.head ≢ reached.flow.tail
      → (send_wakes reached.flow.sender || reached.receiving.woken) ≡ true
  receiver_alert u e ne = elim (recv_parked u e).1 [ inl q ↦ absurd (ne q) | inr a ↦ a ]

  -- If the task that polls Send is parked after any turns of the two tasks on a new channel, and the
  -- channel is not full, then it was woken since its last poll began, or the task that polls Recv has
  -- freed a slot and is about to wake it.
  pub sender_alert :
      (v : T)
      → reached.sending.attempt ≡ parked v
      → leb capacity (wrapping_sub usize_mod reached.flow.tail reached.flow.head) ≡ false
      → (recv_wakes reached.flow.receiver || reached.sending.woken) ≡ true
  sender_alert v e room = elim (send_parked v e).1 [ inl q ↦ cc | inr a ↦ a ]

  -- If the capacity is not 0 and the range of `usize` neither, then after any turns of the two tasks on a
  -- new channel, whenever both are parked, one of them was woken since its last poll began: they
  -- never wait for each other.
  pub no_deadlock :
      (u : Unit {0}) (v : T)
      → 0 < capacity
      → 0 < usize_mod
      → reached.receiving.attempt ≡ parked u
      → reached.sending.attempt ≡ parked v
      → (reached.receiving.woken || reached.sending.woken) ≡ true
  no_deadlock u v some_room some_range er es =
      let (c, w) = recv_parked u er in
      let (p, x) = send_parked v es in
      let a : send_wakes reached.flow.sender ≡ false = ap send_wakes p in
      let b : recv_wakes reached.flow.receiver ≡ false = ap recv_wakes c in
      elim w [
        | inl q ↦ elim x [
          | inl full ↦ absurd (full_nonempty some_room some_range reached full q)
          | inr z ↦ ground (arith, b, z)
        ]
        | inr y ↦ ground (arith, a, y)
      ]
