-- ===== src/Workqueue/Channel/Flow/Invariant.antt =====
-- What holds at each turn of a producer and a consumer.
use px4_rs.Prelude.{
  ℕ, ◌+◌, ◌%◌, ◌≤◌, ◌<◌, ◌≡◌, refl, ap, ◌∙◌, arith, Option, List, [], ◌∷◌, ◌++◌, length,
  length-append,
}
use px4_rs.Workqueue.Channel.{Received, value}
use px4_rs.Workqueue.Channel.Fifo.{Stored}
use px4_rs.Workqueue.Channel.Flow.{Sender, Receiver, Flow}

abbrev pub values : {T : Type 0} → List T → List (Received T)
values [] = []
values (v ∷ vs) = value v ∷ values vs

pub values-append : {T : Type 0} (us vs : List T) → values (us ++ vs) ≡ values us ++ values vs
values-append [] vs = refl
values-append (u ∷ us) vs = ap (λ r. value u ∷ r) (values-append us vs)

module _ (usize_mod capacity : ℕ) {T : Type 0} where
  -- `h` counts the values received, and `q` are those accepted and not yet received.
  pub record Ring (slots : List (Option T)) (head tail : ℕ) (taken : List (Received T))
      (accepted : List T) (h : ℕ) (q : List T) : Type 0 where
    pub head_mod : head ≡ h % usize_mod
    pub tail_mod : tail ≡ (h + length q) % usize_mod
    pub room : length q ≤ capacity
    pub sized : length slots ≡ capacity
    pub stored : Stored capacity slots h q
    pub logged : taken ++ values q ≡ values accepted

  abbrev pub OnRing : Flow T → ℕ → List T → Type 0
  OnRing s h q = Ring s.slots s.head s.tail s.taken s.accepted h q

  -- What the producer knows. A loaded `head` may lag `d` behind, and the queue then had `d` more.
  abbrev pub AtSender : List (Option T) → ℕ → List T → Sender T → Type 0
  AtSender slots h q Sender.away = Unit
  AtSender slots h q (Sender.loaded u x) =
      (h0 : ℕ) × (d : ℕ) × (h ≡ h0 + d) × (x ≡ h0 % usize_mod) × (d + length q ≤ capacity)
  AtSender slots h q (Sender.writing u t) = (t ≡ (h + length q) % usize_mod) × (length q < capacity)
  AtSender slots h q (Sender.written u t) =
      (t ≡ (h + length q) % usize_mod)
      × (length q < capacity)
      × Stored capacity slots h (q ++ (u ∷ []))
  AtSender slots h q Sender.waking = Unit

  -- What the consumer knows. A loaded `tail` may lag behind.
  abbrev pub AtReceiver : ℕ → List T → Receiver T → Type 0
  AtReceiver h q Receiver.away = Unit
  AtReceiver h q (Receiver.loaded x) = (k : ℕ) × (x ≡ (h + k) % usize_mod) × (k ≤ length q)
  AtReceiver h q (Receiver.reading x) = (x ≡ h % usize_mod) × (0 < length q)
  AtReceiver h q (Receiver.read x r) =
      (x ≡ h % usize_mod) × (v : T) × (vs : List T) × (q ≡ v ∷ vs) × (r ≡ value v)
  AtReceiver h q Receiver.waking = Unit

  abbrev pub Inv : Flow T → Type 0
  Inv s =
      (h : ℕ) × (q : List T) × OnRing s h q
      × AtSender s.slots h q s.sender
      × AtReceiver h q s.receiver

  -- What the consumer knows stays true when a value is added.
  pub AtReceiver-append :
      (h : ℕ) (q : List T) (u : T) (c : Receiver T)
      → AtReceiver h q c
      → AtReceiver h (q ++ (u ∷ [])) c
  AtReceiver-append h q u Receiver.away a = tt
  AtReceiver-append h q u (Receiver.loaded x) (k, e, l) =
      (k, e, omega (arith, length-append q (u ∷ [])))
  AtReceiver-append h q u (Receiver.reading x) (e, l) = (e, omega (arith, length-append q (u ∷ [])))
  AtReceiver-append h q u (Receiver.read x r) (e, v, vs, e', e'') =
      (e, v, vs ++ (u ∷ []), ap (λ l. l ++ (u ∷ [])) e', e'')
  AtReceiver-append h q u Receiver.waking a = tt

  -- What the producer knows stays true when a value is taken.
  pub AtSender-tail :
      (slots : List (Option T)) (h : ℕ) (v : T) (q : List T) (p : Sender T)
      → AtSender slots h (v ∷ q) p
      → AtSender slots (h + 1) q p
  AtSender-tail slots h v q Sender.away a = tt
  AtSender-tail slots h v q (Sender.loaded u x) (h0, d, e, e', l) =
      (h0, d + 1, omega arith, e', omega arith)
  AtSender-tail slots h v q (Sender.writing u t) (e, l) =
      (e ∙ ap (λ k. k % usize_mod) (omega arith), omega arith)
  AtSender-tail slots h v q (Sender.written u t) (e, l, s) =
      (e ∙ ap (λ k. k % usize_mod) (omega arith), omega arith, s.1)
  AtSender-tail slots h v q Sender.waking a = tt
