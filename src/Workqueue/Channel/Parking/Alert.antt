-- ===== src/Workqueue/Channel/Parking/Alert.antt =====
-- A task that is parked while it could go on has been woken, or is about to be.
use px4_rs.Prelude.{ℕ, ◌≡◌, ◌⊎◌, inl, inr, refl, arith, ◌||◌, Bool, true, false, leb}
use px4_rs.Workqueue.Channel.{wrapping_sub}
use px4_rs.Workqueue.Channel.Flow.{Sender, Receiver, Flow, step_sender, step_receiver}
use px4_rs.Workqueue.Channel.Parking.{
  Attempt, resting, first, registering, second, parked, Waiter, Parties, wake_after_send,
  wake_after_recv,
}

-- The other side is before its wake.
abbrev pub send_wakes : {T : Type 0} → Sender T → Bool
send_wakes Sender.waking = true
send_wakes Sender.away = false
send_wakes (Sender.loaded v h) = false
send_wakes (Sender.writing v t) = false
send_wakes (Sender.written v t) = false

abbrev pub recv_wakes : {T : Type 0} → Receiver T → Bool
recv_wakes Receiver.waking = true
recv_wakes Receiver.away = false
recv_wakes (Receiver.loaded t) = false
recv_wakes (Receiver.reading h) = false
recv_wakes (Receiver.read h r) = false

-- What a turn inside `try_send` does for a task that is registered or was woken: it stays so, an alert
-- stays, and a new `tail` is an alert.
pub record Alerts (same : Type 0) (alert alert' known' : Bool) : Type 0 where
  pub knows : known' ≡ true
  pub stays : alert ≡ true → alert' ≡ true
  pub moved : same ⊎ (alert' ≡ true)

module _ (usize_mod capacity : ℕ) {T : Type 0} where
  -- What a task knows after its registration, where `alert` says that it was woken or will be.
  abbrev pub RecvReady : Attempt (Unit {0}) → Receiver T → ℕ → ℕ → Bool → Bool → Type 0
  RecvReady resting c head tail alert known = c ≡ Receiver.away
  RecvReady (first u) c head tail alert known = Unit
  RecvReady (registering u) c head tail alert known = c ≡ Receiver.away
  RecvReady (second u) (Receiver.loaded t) head tail alert known =
      (known ≡ true) × ((t ≡ tail) ⊎ (alert ≡ true))
  RecvReady (second u) c head tail alert known = known ≡ true
  RecvReady (parked u) c head tail alert known =
      (c ≡ Receiver.away) × (known ≡ true) × ((head ≡ tail) ⊎ (alert ≡ true))

  abbrev pub SendReady : Attempt T → Sender T → ℕ → ℕ → Bool → Bool → Type 0
  SendReady resting p head tail alert known = p ≡ Sender.away
  SendReady (first u) p head tail alert known = Unit
  SendReady (registering u) p head tail alert known = p ≡ Sender.away
  SendReady (second u) (Sender.loaded v h) head tail alert known =
      (known ≡ true) × ((h ≡ head) ⊎ (alert ≡ true))
  SendReady (second u) p head tail alert known = known ≡ true
  SendReady (parked u) p head tail alert known =
      (p ≡ Sender.away)
      × (known ≡ true)
      × ((leb capacity (wrapping_sub usize_mod tail head) ≡ true) ⊎ (alert ≡ true))

  abbrev pub RecvInv : Parties T → Type 0
  RecvInv s =
      RecvReady s.receiving.attempt s.flow.receiver s.flow.head s.flow.tail
        (send_wakes s.flow.sender || s.receiving.woken)
        (s.receiving.registered || s.receiving.woken)

  abbrev pub SendInv : Parties T → Type 0
  SendInv s =
      SendReady s.sending.attempt s.flow.sender s.flow.head s.flow.tail
        (recv_wakes s.flow.receiver || s.sending.woken) (s.sending.registered || s.sending.woken)

  pub send-Alerts :
      (u : T) (p : Sender T) (f : Flow T) (r : Waiter (Unit {0}))
      → (r.registered || r.woken) ≡ true
      → (let f' = step_sender usize_mod capacity u p f in
          let r' = wake_after_send p r in
          Alerts
            ((f'.tail ≡ f.tail) × (f'.head ≡ f.head))
            (send_wakes p || r.woken)
            (send_wakes f'.sender || r'.woken)
            (r'.registered || r'.woken))
  unfolding step_sender
  send-Alerts u Sender.away f r k = record {
    knows = k;
    stays = λ a. ground arith;
    moved = inl (refl, refl);
  }
  send-Alerts u (Sender.loaded v h) f r k = record {
    knows = k;
    stays = λ a. ground arith;
    moved = inl (refl, refl);
  }
  send-Alerts u (Sender.writing v t) f r k = record {
    knows = k;
    stays = λ a. ground arith;
    moved = inl (refl, refl);
  }
  send-Alerts u (Sender.written v t) f r k = record {
    knows = k;
    stays = λ a. refl;
    moved = inr refl;
  }
  send-Alerts u Sender.waking f r k = record {
    knows = ground arith;
    stays = λ a. ground arith;
    moved = inl (refl, refl);
  }

  pub recv-Alerts :
      (c : Receiver T) (f : Flow T) (r : Waiter T)
      → (r.registered || r.woken) ≡ true
      → (let f' = step_receiver usize_mod capacity c f in
          let r' = wake_after_recv c r in
          Alerts
            ((f'.tail ≡ f.tail) × (f'.head ≡ f.head))
            (recv_wakes c || r.woken)
            (recv_wakes f'.receiver || r'.woken)
            (r'.registered || r'.woken))
  unfolding step_receiver
  recv-Alerts Receiver.away f r k = record {
    knows = k;
    stays = λ a. ground arith;
    moved = inl (refl, refl);
  }
  recv-Alerts (Receiver.loaded t) f r k = record {
    knows = k;
    stays = λ a. ground arith;
    moved = inl (refl, refl);
  }
  recv-Alerts (Receiver.reading h) f r k = record {
    knows = k;
    stays = λ a. ground arith;
    moved = inl (refl, refl);
  }
  recv-Alerts (Receiver.read h x) f r k = record { knows = k; stays = λ a. refl; moved = inr refl }
  recv-Alerts Receiver.waking f r k = record {
    knows = ground arith;
    stays = λ a. ground arith;
    moved = inl (refl, refl);
  }

  -- The other side's turn leaves a task ready.
  pub RecvReady-kept :
      (a : Attempt (Unit {0})) (c : Receiver T) {head tail head' tail' : ℕ}
      {alert alert' known known' : Bool}
      → (known ≡ true → Alerts ((tail' ≡ tail) × (head' ≡ head)) alert alert' known')
      → RecvReady a c head tail alert known
      → RecvReady a c head' tail' alert' known'
  RecvReady-kept resting c l h = h
  RecvReady-kept (first u) c l h = tt
  RecvReady-kept (registering u) c l h = h
  RecvReady-kept (second u) Receiver.away l h = (l h).knows
  RecvReady-kept (second u) (Receiver.reading x) l h = (l h).knows
  RecvReady-kept (second u) (Receiver.read x r) l h = (l h).knows
  RecvReady-kept (second u) Receiver.waking l h = (l h).knows
  RecvReady-kept (second u) (Receiver.loaded t) l (k, e) =
      let a = l k in (a.knows, ground (arith, e, a.moved, a.stays))
  RecvReady-kept (parked u) c l (w, k, e) =
      let a = l k in (w, a.knows, ground (arith, e, a.moved, a.stays))

  pub SendReady-kept :
      (a : Attempt T) (p : Sender T) {head tail head' tail' : ℕ} {alert alert' known known' : Bool}
      → (known ≡ true → Alerts ((tail' ≡ tail) × (head' ≡ head)) alert alert' known')
      → SendReady a p head tail alert known
      → SendReady a p head' tail' alert' known'
  SendReady-kept resting p l h = h
  SendReady-kept (first u) p l h = tt
  SendReady-kept (registering u) p l h = h
  SendReady-kept (second u) Sender.away l h = (l h).knows
  SendReady-kept (second u) (Sender.writing v t) l h = (l h).knows
  SendReady-kept (second u) (Sender.written v t) l h = (l h).knows
  SendReady-kept (second u) Sender.waking l h = (l h).knows
  SendReady-kept (second u) (Sender.loaded v x) l (k, e) =
      let a = l k in (a.knows, ground (arith, e, a.moved, a.stays))
  SendReady-kept (parked u) p l (w, k, e) =
      let a = l k in (w, a.knows, ground (arith, e, a.moved, a.stays))
