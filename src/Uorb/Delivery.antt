-- ===== src/Uorb/Delivery.antt =====
-- What a subscription receives: `try_recv` step by step.
use mathlib.Core.Path.{subst}
use px4_rs.Prelude.{
  ap₂, ℕ, suc, zero, ◌≡◌, ◌-◌, refl, sym, ap, ◌∙◌, Option, none, some, List, [], ◌∷◌, ◌++◌, ltb,
  arith, true, if◌then◌else◌, length, take, drop, append-nil,
}
use px4_rs.Uorb.Broker.{TopicState, SubCb, Bus, copy, sub_cb_register, sub_cb_update, add_lost}
use px4_rs.Uorb.Handles.{held}
use px4_rs.Uorb.Client.{ensure_cb, ensure_registered, update_cb, try_recv}

pub take_all : (n : ℕ) (xs : List ℕ) → length xs ≡ n → take n xs ≡ xs
take_all zero [] e = refl
take_all zero (x ∷ xs) e = absurd (omega arith)
take_all (suc n) [] e = refl
take_all (suc n) (x ∷ xs) e = ap (λ t. x ∷ t) (take_all n xs (omega arith))

pub drop_all : (n : ℕ) (xs : List ℕ) → length xs ≡ n → drop n xs ≡ []
drop_all zero [] e = refl
drop_all zero (x ∷ xs) e = absurd (omega arith)
drop_all (suc n) [] e = refl
drop_all (suc n) (x ∷ xs) e = drop_all n xs (omega arith)

drop_nil : (n : ℕ) → drop {A = ℕ} n [] ≡ []
drop_nil zero = refl
drop_nil (suc n) = refl

-- A copy of a whole message over another, or into an empty buffer.
pub copy_over : (n : ℕ) (src dst : List ℕ) → length src ≡ n → length dst ≡ n → copy n src dst ≡ src
copy_over n src dst e f = ap₂ (λ a b. a ++ b) (take_all n src e) (drop_all n dst f) ∙ append-nil src

pub copy_fresh : (n : ℕ) (src : List ℕ) → length src ≡ n → copy n src [] ≡ src
copy_fresh n src e = ap₂ (λ a b. a ++ b) (take_all n src e) (drop_nil n) ∙ append-nil src

-- How far a handle has seen, and what it has lost; a new handle will start at 0.
abbrev pub seen : Option SubCb → ℕ
seen none = 0
seen (some c) = c.last_seen

abbrev pub missed : Option SubCb → ℕ
missed none = 0
missed (some c) = c.lost

-- What a topic offers to a handle that has seen `n`.
abbrev pub offer : TopicState → ℕ → List ℕ → Option (List ℕ)
offer t n dst = if ltb n t.seq then some (copy t.size t.sample dst) else none

abbrev pub seen_after : TopicState → ℕ → ℕ
seen_after t n = if ltb n t.seq then t.seq else n

abbrev pub missed_after : TopicState → ℕ → ℕ → ℕ
missed_after t n lost = if ltb n t.seq then add_lost (t.seq - n - 1) lost else lost

module _ {W : Type 0} where
  update_cb_lem :
      (i : ℕ) (c : SubCb) (dst : List ℕ) (b : Bus W)
      → ((update_cb i (some c) dst b).1 ≡ offer b.topic c.last_seen dst)
        × (seen ((update_cb i (some c) dst b).0.subs i).cb ≡ seen_after b.topic c.last_seen)
        × (missed ((update_cb i (some c) dst b).0.subs i).cb
            ≡ missed_after b.topic c.last_seen c.lost)
        × ((update_cb i (some c) dst b).0.topic ≡ b.topic)
        × (((update_cb i (some c) dst b).0.subs i).waker ≡ (b.subs i).waker)
        × (held ((update_cb i (some c) dst b).0.subs i).cb ≡ 1)
  unfolding update_cb sub_cb_update
  update_cb_lem i c dst b =
      (ground arith, ground arith, ground arith, refl, ground arith, ground arith)

  -- `ensure_registered` finds or makes a handle, and keeps what it has seen and lost.
  record Ensured (i : ℕ) (b b' : Bus W) : Type 0 where
    handle : SubCb
    there : (b'.subs i).cb ≡ some handle
    same_seen : handle.last_seen ≡ seen (b.subs i).cb
    same_lost : handle.lost ≡ missed (b.subs i).cb
    same_seq : b'.topic.seq ≡ b.topic.seq
    same_size : b'.topic.size ≡ b.topic.size
    same_sample : b'.topic.sample ≡ b.topic.sample
    same_waker : (b'.subs i).waker ≡ (b.subs i).waker

  ensure_cb_lem :
      (i : ℕ) (b : Bus W) (o : Option SubCb) → (b.subs i).cb ≡ o → Ensured i b (ensure_cb i o b)
  unfolding ensure_cb sub_cb_register
  ensure_cb_lem i b none e = record {
    handle = record { last_seen = 0; registered = true; lost = 0 };
    there = ground arith;
    same_seen = sym (ap seen e);
    same_lost = sym (ap missed e);
    same_seq = refl;
    same_size = refl;
    same_sample = refl;
    same_waker = ground arith;
  }
  ensure_cb_lem i b (some c) e = record {
    handle = c;
    there = e;
    same_seen = sym (ap seen e);
    same_lost = sym (ap missed e);
    same_seq = refl;
    same_size = refl;
    same_sample = refl;
    same_waker = refl;
  }

  -- What `try_recv` of subscription `i` does.
  pub record Tried (i : ℕ) (b b' : Bus W) (got : Option (List ℕ)) : Type 0 where
    pub result : got ≡ offer b.topic (seen (b.subs i).cb) []
    pub sees : seen (b'.subs i).cb ≡ seen_after b.topic (seen (b.subs i).cb)
    pub misses :
        missed (b'.subs i).cb ≡ missed_after b.topic (seen (b.subs i).cb) (missed (b.subs i).cb)
    pub same_seq : b'.topic.seq ≡ b.topic.seq
    pub same_size : b'.topic.size ≡ b.topic.size
    pub same_sample : b'.topic.sample ≡ b.topic.sample
    pub same_waker : (b'.subs i).waker ≡ (b.subs i).waker
    pub live : held (b'.subs i).cb ≡ 1

  update_cb-Tried :
      (i : ℕ) (b b' : Bus W) (e : Ensured i b b')
      → Tried i b (update_cb i (some e.handle) [] b').0 (update_cb i (some e.handle) [] b').1
  update_cb-Tried i b b' e =
      let l = update_cb_lem i e.handle [] b' in
      record {
        result = ground (arith, l.0, e.same_seen, e.same_seq, e.same_size, e.same_sample);
        sees = ground (arith, l.1, e.same_seen, e.same_seq);
        misses = ground (arith, l.2, e.same_seen, e.same_lost, e.same_seq);
        same_seq = ap (λ t. t.seq) l.3 ∙ e.same_seq;
        same_size = ap (λ t. t.size) l.3 ∙ e.same_size;
        same_sample = ap (λ t. t.sample) l.3 ∙ e.same_sample;
        same_waker = l.4 ∙ e.same_waker;
        live = l.5;
      }

  pub try_recv_lem : (i : ℕ) (b : Bus W) → Tried i b (try_recv i b).0 (try_recv i b).1
  unfolding try_recv ensure_registered
  try_recv_lem i b =
      let e = ensure_cb_lem i b (b.subs i).cb refl in
      let b' = ensure_cb i (b.subs i).cb b in
      subst (λ o. Tried i b (update_cb i o [] b').0 (update_cb i o [] b').1) (sym e.there)
        (update_cb-Tried i b b' e)
