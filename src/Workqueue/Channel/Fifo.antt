-- ===== src/Workqueue/Channel/Fifo.antt =====
-- A channel whose capacity divides the range of `usize` is a bounded first-in first-out queue, also
-- across the wrap of its counters.
use native.Mathlib.Nat.{mod-lt, mod_self, zero-mod}
use px4_rs.Prelude.{
  ◌↔◌, ==_iff, get_or-set_self, get_or-set_ne, ℕ, ◌+◌, ◌-◌, ◌%◌, ◌≤◌, ◌<◌, ◌≡◌, ◌≢◌, refl, sym, ap,
  ◌∙◌, arith, true, false, Option, none, some, List, [], ◌∷◌, ◌++◌, length, get_or, set, length-set,
  length-append, length-replicate, if◌then◌else◌, leb, ◌==◌, Bool-cases, inl, inr,
}
use px4_rs.Workqueue.Channel.{
  Channel, Sent, ok, full, Received, empty, value, read_slot, wrapping_sub, wrapping_add,
  new_channel, push, try_send, pop, try_recv,
}
use px4_rs.Workqueue.Channel.Counters.{wrapping_sub_lem, wrapping_add_lem, slot_lem, slot_ne}

-- The specification: a queue of at most `capacity` values, oldest first.
module _ {T : Type 0} where
  unfoldable pub enqueue : ℕ → T → List T → List T × Sent T
  enqueue capacity v q = if leb capacity (length q) then (q, full v) else (q ++ v ∷ [], ok)

  unfoldable pub dequeue : List T → List T × Received T
  dequeue [] = ([], empty)
  dequeue (v ∷ q) = (q, value v)

-- The values of `q` stand in the slots from the counter `h` on.
abbrev pub Stored : {T : Type 0} → ℕ → List (Option T) → ℕ → List T → Type 0
Stored capacity buf h [] = Unit
Stored capacity buf h (v ∷ q) =
    (get_or buf (h % capacity) none ≡ some v) × Stored capacity buf (h + 1) q

-- The channel holds `q`; `h` counts the values ever received.
pub record Holds {T W : Type 0} (usize_mod capacity : ℕ) (c : Channel T W) (h : ℕ) (q : List T)
    : Type 0 where
  pub head_mod : c.head ≡ h % usize_mod
  pub tail_mod : c.tail ≡ (h + length q) % usize_mod
  pub room : length q ≤ capacity
  pub slots : length c.buf ≡ capacity
  pub stored : Stored capacity c.buf h q

-- A write just past the stored values adds one.
pub Stored-set :
    {T : Type 0} (capacity : ℕ) (buf : List (Option T)) (h i : ℕ) (q : List T) (v : T)
    → length buf ≡ capacity
    → length q < capacity
    → i ≡ (h + length q) % capacity
    → Stored capacity buf h q
    → Stored capacity (set buf i (some v)) h (q ++ v ∷ [])
Stored-set capacity buf h i [] v len room e s = (rw e (get_or-set_slot (h + 0) h (omega arith)), tt)
  where
    get_or-set_slot :
        (a b : ℕ) → a ≡ b → get_or (set buf (a % capacity) (some v)) (b % capacity) none ≡ some v
    get_or-set_slot a b p =
        rw p (get_or-set_self buf (b % capacity) (some v) none (rw len (mod-lt b room)))
Stored-set capacity buf h i (x ∷ q) v len room e s = (
  get_or-set_ne buf i (h % capacity) (some v) none (rw e (slot_ne capacity h (length q) room))
      ∙ s.0,
  Stored-set capacity buf (h + 1) i q v len (omega arith) (e ∙ ap (λ k. k % capacity) (omega arith))
      s.1,
)

module _ {T W : Type 0} (usize_mod capacity : ℕ) (divides : usize_mod % capacity ≡ 0)
    (small : capacity < usize_mod) where
  pub count_lem :
      {c : Channel T W} {h : ℕ} {q : List T}
      → Holds usize_mod capacity c h q
      → wrapping_sub usize_mod c.tail c.head ≡ length q
  count_lem {c} {h} {q} v =
      rw (v.head_mod, v.tail_mod)
        (wrapping_sub_lem usize_mod h (length q) (omega (arith, v.room, small)))

  -- The slot that `try_send` writes.
  slot_of :
      {c : Channel T W} {h : ℕ} {q : List T}
      → Holds usize_mod capacity c h q
      → c.tail % capacity ≡ (h + length q) % capacity
  slot_of {h} {q} s =
      ap (λ k. k % capacity) s.tail_mod ∙ slot_lem usize_mod capacity (h + length q) divides

  pub push-Holds :
      {c : Channel T W} {h : ℕ} {q : List T} (v : T)
      → Holds usize_mod capacity c h q
      → length q < capacity
      → Holds usize_mod capacity (push usize_mod capacity v c).chan h (q ++ v ∷ [])
  unfolding push
  push-Holds {c} {h} {q} v s room = record {
    head_mod = s.head_mod;
    tail_mod =
        ap (λ k. wrapping_add usize_mod k 1) s.tail_mod
        ∙ (wrapping_add_lem usize_mod (h + length q) 1
            ∙ ap (λ k. k % usize_mod) (omega (arith, length-append q (v ∷ []))));
    room = omega (arith, length-append q (v ∷ []));
    slots = length-set c.buf _ _ ∙ s.slots;
    stored = Stored-set capacity c.buf h (c.tail % capacity) q v s.slots room (slot_of s) s.stored;
  }

  -- `try_send` on a channel that holds `q` does to `q` what the queue does, and gives its answer.
  pub try_send_refines :
      {c : Channel T W} {h : ℕ} {q : List T} (v : T)
      → Holds usize_mod capacity c h q
      → Holds usize_mod capacity (try_send usize_mod capacity v c).chan h (enqueue capacity v q).0
        × ((try_send usize_mod capacity v c).result ≡ (enqueue capacity v q).1)
  unfolding try_send enqueue
  try_send_refines {c} {h} {q} v s = elim (Bool-cases (leb capacity (length q))) [
    | inl e ↦ rw (count_lem s, e) (s, refl)
    | inr e ↦ rw (count_lem s, e) (push-Holds v s (ground arith), refl)
  ]

  pub pop-Holds :
      {c : Channel T W} {h : ℕ} {q : List T} (v : T)
      → Holds usize_mod capacity c h (v ∷ q)
      → Holds usize_mod capacity (pop usize_mod capacity c).chan (h + 1) q
        × ((pop usize_mod capacity c).result ≡ value v)
  unfolding pop
  pop-Holds {c} {h} {q} v s = (
    record {
      head_mod = ap (λ k. wrapping_add usize_mod k 1) s.head_mod ∙ wrapping_add_lem usize_mod h 1;
      tail_mod = s.tail_mod ∙ ap (λ k. k % usize_mod) (omega arith);
      room = omega (arith, s.room);
      slots = s.slots;
      stored = s.stored.1;
    },
    ap read_slot (
        ap (λ k. get_or c.buf k none)
          (ap (λ k. k % capacity) s.head_mod ∙ slot_lem usize_mod capacity h divides)
        ∙ s.stored.0),
  )

  -- The counters are equal exactly when nothing is stored.
  pub counters_eq :
      {c : Channel T W} {h : ℕ} {q : List T}
      → Holds usize_mod capacity c h q
      → (c.head ≡ c.tail) ↔ (q ≡ [])
  counters_eq {c} {h} {q = []} s =
      (λ e. refl, λ e. s.head_mod ∙ (ap (λ k. k % usize_mod) (omega arith) ∙ sym s.tail_mod))
  counters_eq {c} {h} {q = v ∷ q} s =
      (λ e. absurd (omega (arith, count_lem s, no_distance e)), λ e. cc)
    where
      no_distance : c.head ≡ c.tail → wrapping_sub usize_mod c.tail c.head ≡ 0
      no_distance e =
          ap (λ k. (c.tail + usize_mod - k) % usize_mod) e
          ∙ (ap (λ k. k % usize_mod) (omega arith) ∙ mod_self usize_mod)

  -- `try_recv` likewise: it never reads an uninitialised slot.
  pub try_recv_refines :
      {c : Channel T W} {h : ℕ} {q : List T}
      → Holds usize_mod capacity c h q
      → ((k : ℕ) × Holds usize_mod capacity (try_recv usize_mod capacity c).chan k (dequeue q).0)
        × ((try_recv usize_mod capacity c).result ≡ (dequeue q).1)
  unfolding try_recv dequeue
  try_recv_refines {c} {h} {q = []} s =
      let e : (c.head == c.tail) ≡ true = (==_iff c.head c.tail).1 ((counters_eq s).1 refl) in
      rw e ((h, s), refl)
  try_recv_refines {c} {h} {q = v ∷ q} s =
      let ne : c.head ≢ c.tail = λ e. cc ((counters_eq s).0 e) in
      let e : (c.head == c.tail) ≡ false = ground arith in
      rw e ((h + 1, (pop-Holds v s).0), (pop-Holds v s).1)

  pub new-Holds : Holds usize_mod capacity (new_channel usize_mod capacity {T = T} {W = W}) 0 []
  unfolding new_channel
  new-Holds = record {
    head_mod = sym (zero-mod usize_mod);
    tail_mod = sym (zero-mod usize_mod);
    room = omega arith;
    slots = length-replicate capacity none;
    stored = tt;
  }
