-- ===== src/Workqueue/Channel/Wrap.antt =====
-- What happens at the wrap of the counters when the capacity does not divide the range of `usize`:
-- `tail % N` then jumps, and two live values share a slot.
use native.Mathlib.Nat.{zero-mod, mul-mod_right, div-add-mod, mod-eq_of_lt, mod-lt, mod_self}
use mathlib.Core.Path.{subst}
use px4_rs.Prelude.{
  ℕ, zero, suc, ◌+◌, ◌-◌, ◌%◌, ◌/◌, ◌<◌, ◌≡◌, ◌≢◌, refl, sym, ap, ◌∙◌, arith, none, some, length,
  length-set, length-replicate, get_or, get_or-set_self,
}
use px4_rs.Workqueue.Channel.{
  Channel, value, push, pop, try_send, try_recv, new_channel, wrapping_sub, wrapping_add, read_slot,
}

module _ (usize_mod : ℕ) where
  -- Equal counters are no distance apart.
  no_distance : (a b : ℕ) → a ≡ b → wrapping_sub usize_mod a b ≡ 0
  no_distance a b e =
      ap (λ k. (k + usize_mod - b) % usize_mod) e
      ∙ (ap (λ k. k % usize_mod) (omega arith) ∙ mod_self usize_mod)

  next_lem : (a n : ℕ) → a ≡ n → n + 1 < usize_mod → wrapping_add usize_mod a 1 ≡ n + 1
  next_lem a n e h = ap (λ k. (k + 1) % usize_mod) e ∙ mod-eq_of_lt h

  -- The counter after the last one, and the distance from the last one to it.
  last_next : 0 < usize_mod → (a : ℕ) → a ≡ usize_mod - 1 → wrapping_add usize_mod a 1 ≡ 0
  last_next pos a e = ap (λ k. k % usize_mod) (omega arith) ∙ mod_self usize_mod

  last_distance :
      1 < usize_mod → (a b : ℕ) → a ≡ 0 → b ≡ usize_mod - 1 → wrapping_sub usize_mod a b ≡ 1
  last_distance h a b e f = ap (λ k. k % usize_mod) (omega arith) ∙ mod-eq_of_lt h

  -- The slot of the last counter is the first, if one more than a multiple of the capacity fits.
  last_slot : (capacity a : ℕ) → usize_mod % capacity ≡ 1 → a ≡ usize_mod - 1 → a % capacity ≡ 0
  last_slot capacity a one e =
      ap (λ k. k % capacity) (omega (arith, div-add-mod usize_mod capacity))
      ∙ mul-mod_right capacity (usize_mod / capacity)

module _ {T W : Type 0} (usize_mod capacity : ℕ) where
  -- The channel after a value was sent and received `n` times, starting from `c`.
  pub cycle : ℕ → T → Channel T W → Channel T W
  cycle zero v c = c
  cycle (suc n) v c =
      cycle n v (try_recv usize_mod capacity (try_send usize_mod capacity v c).chan).chan

  -- Both counters stand at `n`.
  record At (n : ℕ) (c : Channel T W) : Type 0 where
    at_head : c.head ≡ n
    at_tail : c.tail ≡ n
    slots : length c.buf ≡ capacity

  send_room :
      (c : Channel T W) (v : T)
      → wrapping_sub usize_mod c.tail c.head < capacity
      → try_send usize_mod capacity v c ≡ push usize_mod capacity v c
  unfolding try_send
  send_room c v h = ground arith

  recv_value :
      (c : Channel T W) → c.head ≢ c.tail → try_recv usize_mod capacity c ≡ pop usize_mod capacity c
  unfolding try_recv
  recv_value c h = ground arith

  At-cycle_one :
      (c : Channel T W) (n : ℕ) (v : T)
      → 0 < capacity
      → n + 1 < usize_mod
      → At n c
      → At (n + 1) (try_recv usize_mod capacity (try_send usize_mod capacity v c).chan).chan
  unfolding push pop
  At-cycle_one c n v pos small s =
      let e =
        send_room c v
          (omega (arith, no_distance usize_mod c.tail c.head (s.at_tail ∙ sym s.at_head))) in
      let next = next_lem usize_mod c.tail n s.at_tail small in
      rw (e, recv_value (push usize_mod capacity v c).chan (omega (arith, s.at_head, next)))
        (record {
          at_head = next_lem usize_mod c.head n s.at_head small;
          at_tail = next;
          slots = length-set c.buf _ _ ∙ s.slots;
        })

  At-cycle :
      (k : ℕ) (c : Channel T W) (n : ℕ) (v : T)
      → 0 < capacity
      → n + k < usize_mod
      → At n c
      → At (n + k) (cycle k v c)
  unfolding cycle
  At-cycle zero c n v pos small s = subst (λ m. At m c) (omega arith) s
  At-cycle (suc k) c n v pos small s =
      subst (λ m. At m (cycle (suc k) v c)) (omega arith)
        (At-cycle k _ (n + 1) v pos (omega arith) (At-cycle_one c n v pos (omega arith) s))

  -- With both counters at the last value, the first of two sends is overwritten by the second.
  overwrite :
      (c : Channel T W) (a b : T)
      → 1 < capacity
      → capacity < usize_mod
      → usize_mod % capacity ≡ 1
      → At (usize_mod - 1) c
      → (try_recv usize_mod capacity
          (try_send usize_mod capacity b (try_send usize_mod capacity a c).chan).chan).result
        ≡ value b
  unfolding push pop
  overwrite c a b pos small one s =
      ap (λ o. (try_recv usize_mod capacity (try_send usize_mod capacity b o.chan).chan).result) e₁
      ∙ (ap (λ o. (try_recv usize_mod capacity o.chan).result) e₂
          ∙ (ap (λ o. o.result) e₃ ∙ ap read_slot same_slot))
    where
      c₁ : Channel T W
      c₁ = (push usize_mod capacity a c).chan

      c₂ : Channel T W
      c₂ = (push usize_mod capacity b c₁).chan

      e₁ : try_send usize_mod capacity a c ≡ push usize_mod capacity a c
      e₁ =
          send_room c a
            (omega (arith, no_distance usize_mod c.tail c.head (s.at_tail ∙ sym s.at_head)))

      zero_tail : c₁.tail ≡ 0
      zero_tail = last_next usize_mod (omega arith) c.tail s.at_tail

      e₂ : try_send usize_mod capacity b c₁ ≡ push usize_mod capacity b c₁
      e₂ =
          send_room c₁ b (
            omega (arith, last_distance usize_mod (omega arith) c₁.tail c.head zero_tail s.at_head))

      e₃ : try_recv usize_mod capacity c₂ ≡ pop usize_mod capacity c₂
      e₃ =
          recv_value c₂
            (omega (arith, s.at_head, next_lem usize_mod c₁.tail 0 zero_tail (omega arith)))

      same_slot : get_or c₂.buf (c₂.head % capacity) none ≡ some b
      same_slot =
          ap (λ k. get_or c₂.buf k none)
            (last_slot usize_mod capacity c.head one s.at_head
              ∙ sym (ap (λ k. k % capacity) zero_tail ∙ zero-mod capacity))
          ∙ get_or-set_self c₁.buf (c₁.tail % capacity) (some b) none
              (rw (length-set c.buf _ _, s.slots) (mod-lt c₁.tail (omega arith)))

new-At :
    {T W : Type 0} (usize_mod capacity : ℕ)
    → At usize_mod capacity 0 (new_channel usize_mod capacity {T = T} {W = W})
unfolding new_channel
new-At usize_mod capacity = record {
  at_head = refl;
  at_tail = refl;
  slots = length-replicate capacity none;
}

-- If the range of `usize` is one more than a multiple of the capacity (as for a capacity of 3 or 5
-- and a 32-bit `usize`), a channel loses a value at the wrap: after `usize_mod - 1` values were
-- sent and received, of two values sent in a row the second is received first.
pub wrap_loses :
    {T : Type 0} (W : Type 0) (usize_mod capacity : ℕ) (v a b : T)
    → 1 < capacity
    → capacity < usize_mod
    → usize_mod % capacity ≡ 1
    → (try_recv usize_mod capacity
        (try_send usize_mod capacity b
          (try_send usize_mod capacity a (
            cycle usize_mod capacity
              (usize_mod - 1)
              v
              (new_channel usize_mod capacity {W = W}))).chan).chan).result
      ≡ value b
wrap_loses {T} W usize_mod capacity v a b pos small one =
    overwrite usize_mod capacity _ a b pos small one last
  where
    last : At usize_mod capacity (usize_mod - 1) (
        cycle usize_mod capacity (usize_mod - 1) v (new_channel usize_mod capacity {T = T} {W = W}))
    last =
        subst
          (λ n. At usize_mod capacity n (
            cycle usize_mod capacity (usize_mod - 1) v
              (new_channel usize_mod capacity {T = T} {W = W})))
          (omega arith)
          (At-cycle usize_mod capacity (usize_mod - 1) _ 0 v (omega arith) (omega arith)
            (new-At usize_mod capacity))
