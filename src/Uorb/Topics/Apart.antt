-- ===== src/Uorb/Topics/Apart.antt =====
-- Calls on several topics: each topic is in the state that the calls with its name alone yield.
use px4_rs.Prelude.{
  ℕ, zero, suc, ◌<◌, ◌≡◌, ◌≢◌, refl, sym, ap, ◌∙◌, Bool, Option, none, some, List, [], ◌∷◌, ◌++◌,
  if◌then◌else◌, length, arith, get_elem?, length-append, Bool-cases, inl, inr,
}
use px4_rs.Text.{equal}
use px4_rs.Text.Words.{equal_refl, equal_sound}
use px4_rs.Uorb.Broker.{Bus}
use px4_rs.Uorb.Client.{new_bus}
use px4_rs.Uorb.Topics.{
  OrbMetadata, Broker, lookup, or_insert, topic_for, modify, through, open_topic,
}

abbrev pub fallback : Bool → ℕ → Option ℕ → Option ℕ
fallback e k (some i) = some i
fallback e k none = if e then some k else none

lookup-append :
    (n m : List ℕ) (k : ℕ) (ks : List (List ℕ × ℕ))
    → lookup n (ks ++ ((m, k) ∷ [])) ≡ fallback (equal m n) k (lookup n ks)
unfolding lookup
lookup-append n m k [] = refl
lookup-append n m k ((j, i) ∷ ks) = ground (arith, lookup-append n m k ks)

lookup-append_ne :
    (n m : List ℕ) (k : ℕ) (ks : List (List ℕ × ℕ))
    → m ≢ n
    → lookup n (ks ++ ((m, k) ∷ [])) ≡ lookup n ks
lookup-append_ne n m k ks d = elim (Bool-cases (equal m n)) [
  | inl e ↦ absurd (d (equal_sound m n e))
  | inr e ↦ ground (arith, e, lookup-append n m k ks)
]

module _ {W : Type 0} where
  get-append :
      (ts : List (Bus W)) (t : Bus W) (i : ℕ)
      → i < length ts
      → get_elem? (ts ++ (t ∷ [])) i ≡ get_elem? ts i
  get-append [] t i h = absurd (omega arith)
  get-append (x ∷ ts) t zero h = refl
  get-append (x ∷ ts) t (suc i) h = get-append ts t i (omega arith)

  get-append_last :
      (ts : List (Bus W)) (t : Bus W) → get_elem? (ts ++ (t ∷ [])) (length ts) ≡ some t
  get-append_last [] t = refl
  get-append_last (x ∷ ts) t = ground (arith, get-append_last ts t)

  abbrev pub applied : (Bus W → Bus W) → Option (Bus W) → Option (Bus W)
  applied f none = none
  applied f (some t) = some (f t)

  get-modify :
      (i : ℕ) (f : Bus W → Bus W) (ts : List (Bus W))
      → get_elem? (modify i f ts) i ≡ applied f (get_elem? ts i)
  unfolding modify
  get-modify i f [] = refl
  get-modify zero f (t ∷ ts) = refl
  get-modify (suc i) f (t ∷ ts) = get-modify i f ts

  get-modify_ne :
      (i j : ℕ) (f : Bus W → Bus W) (ts : List (Bus W))
      → i ≢ j
      → get_elem? (modify i f ts) j ≡ get_elem? ts j
  unfolding modify
  get-modify_ne i j f [] h = refl
  get-modify_ne zero zero f (t ∷ ts) h = absurd (h refl)
  get-modify_ne zero (suc j) f (t ∷ ts) h = refl
  get-modify_ne (suc i) zero f (t ∷ ts) h = refl
  get-modify_ne (suc i) (suc j) f (t ∷ ts) h = get-modify_ne i j f ts (λ e. h (ap suc e))

  length-modify :
      (i : ℕ) (f : Bus W → Bus W) (ts : List (Bus W)) → length (modify i f ts) ≡ length ts
  unfolding modify
  length-modify i f [] = refl
  length-modify zero f (t ∷ ts) = refl
  length-modify (suc i) f (t ∷ ts) = ap suc (length-modify i f ts)

  -- The places of the map are in the list, and two names have two places.
  pub record IsMap (b : Broker W) : Type 0 where
    pub inside : (n : List ℕ) (i : ℕ) → lookup n b.names ≡ some i → i < length b.topics
    pub injective :
        (n m : List ℕ) (i : ℕ) → lookup n b.names ≡ some i → lookup m b.names ≡ some i → n ≡ m

  insert-IsMap :
      (m : OrbMetadata) (b : Broker W) (o : Option ℕ)
      → lookup m.o_name b.names ≡ o
      → IsMap b
      → IsMap (or_insert m b o).1
  insert-IsMap m b (some i) e v = v
  insert-IsMap m b none e v = record {
    inside = λ n i h. ground (
      arith,
      lookup-append n m.o_name (length b.topics) b.names,
      v.inside n i,
      length-append b.topics (new_bus {W = W} m.o_size ∷ []),
    );
    injective = λ n n' i h h'. ground (
      arith,
      lookup-append n m.o_name (length b.topics) b.names,
      lookup-append n' m.o_name (length b.topics) b.names,
      v.inside n i,
      v.inside n' i,
      v.injective n n' i,
      equal_sound m.o_name n,
      equal_sound m.o_name n',
    );
  }

  pub open_topic-IsMap :
      (m : OrbMetadata) (f : Bus W → Bus W) (b : Broker W) → IsMap b → IsMap (open_topic m f b)
  unfolding open_topic topic_for
  open_topic-IsMap m f b v =
      let w = insert-IsMap m b (lookup m.o_name b.names) refl v in
      let (i, b') = or_insert m b (lookup m.o_name b.names) in
      record {
        inside = λ n j h. omega (arith, w.inside n j h, length-modify i f b'.topics);
        injective = w.injective;
      }

  -- The topic of a name.
  abbrev pub view_at : List (Bus W) → Option ℕ → Option (Bus W)
  view_at ts none = none
  view_at ts (some i) = get_elem? ts i

  abbrev pub view : List ℕ → Broker W → Option (Bus W)
  view n b = view_at b.topics (lookup n b.names)

  abbrev pub or_new : ℕ → Option (Bus W) → Bus W
  or_new size none = new_bus size
  or_new size (some t) = t

  pub get_inside :
      (ts : List (Bus W)) (i : ℕ) (size : ℕ)
      → i < length ts
      → get_elem? ts i ≡ some (or_new size (get_elem? ts i))
  get_inside [] i size h = absurd (omega arith)
  get_inside (t ∷ ts) zero size h = refl
  get_inside (t ∷ ts) (suc i) size h = get_inside ts i size (omega arith)

  insert_found :
      (m : OrbMetadata) (b : Broker W) (o : Option ℕ)
      → lookup m.o_name b.names ≡ o
      → IsMap b
      → (let (i, b') = or_insert m b o in
          (lookup m.o_name b'.names ≡ some i)
          × (get_elem? b'.topics i ≡ some (or_new m.o_size (view_at b.topics o))))
  insert_found m b (some i) e v = (e, get_inside b.topics i m.o_size (v.inside m.o_name i e))
  insert_found m b none e v = (
    ground
        (arith, e, lookup-append m.o_name m.o_name (length b.topics) b.names, equal_refl m.o_name),
    get-append_last b.topics (new_bus m.o_size),
  )

  view_grown :
      (ts : List (Bus W)) (t : Bus W) (o : Option ℕ)
      → ((i : ℕ) → o ≡ some i → i < length ts)
      → view_at (ts ++ (t ∷ [])) o ≡ view_at ts o
  view_grown ts t none h = refl
  view_grown ts t (some i) h = get-append ts t i (h i refl)

  insert_other :
      (m : OrbMetadata) (b : Broker W) (o : Option ℕ) (n : List ℕ)
      → m.o_name ≢ n
      → lookup m.o_name b.names ≡ o
      → IsMap b
      → (lookup n (or_insert m b o).1.names ≡ lookup n b.names)
        × (view n (or_insert m b o).1 ≡ view n b)
  insert_other m b (some i) n d e v = (refl, refl)
  insert_other m b none n d e v =
      let same = lookup-append_ne n m.o_name (length b.topics) b.names d in
      (
        same,
        ap (view_at (b.topics ++ (new_bus m.o_size ∷ []))) same
            ∙ view_grown b.topics (new_bus m.o_size) (lookup n b.names) (v.inside n),
      )

  view_modified :
      (i : ℕ) (f : Bus W → Bus W) (ts : List (Bus W)) (o : Option ℕ)
      → o ≢ some i
      → view_at (modify i f ts) o ≡ view_at ts o
  view_modified i f ts none d = refl
  view_modified i f ts (some j) d = get-modify_ne i j f ts (λ e. d (ap some (sym e)))

  -- A call that opens a handle changes the topic of that name, which is made if it is not there, and no other.
  pub open_topic-view :
      (m : OrbMetadata) (f : Bus W → Bus W) (b : Broker W)
      → IsMap b
      → view m.o_name (open_topic m f b) ≡ some (f (or_new m.o_size (view m.o_name b)))
  unfolding open_topic topic_for
  open_topic-view m f b v =
      let o = lookup m.o_name b.names in
      let (at_name, there) = insert_found m b o refl v in
      let (i, b') = or_insert m b o in
      ap (view_at (modify i f b'.topics)) at_name
      ∙ (get-modify i f b'.topics ∙ ap (applied f) there)

  pub open_topic-view_ne :
      (m : OrbMetadata) (f : Bus W → Bus W) (b : Broker W) (n : List ℕ)
      → IsMap b
      → m.o_name ≢ n
      → view n (open_topic m f b) ≡ view n b
  unfolding open_topic topic_for
  open_topic-view_ne m f b n v d =
      let o = lookup m.o_name b.names in
      let (at_name, there) = insert_found m b o refl v in
      let (i, b') = or_insert m b o in
      let w = insert-IsMap m b o refl v in
      view_modified i f b'.topics (lookup n b'.names) (λ e. d (w.injective m.o_name n i at_name e))
      ∙ (insert_other m b o n d refl v).1

  -- A handle keeps to its name: the place that a name has stays its place, and a call through it does what
  -- the call that looks for the topic would do.
  pub open_topic-lookup :
      (m : OrbMetadata) (f : Bus W → Bus W) (b : Broker W) (n : List ℕ) (i : ℕ)
      → lookup n b.names ≡ some i
      → lookup n (open_topic m f b).names ≡ some i
  unfolding open_topic topic_for
  open_topic-lookup m f b n i e = kept (lookup m.o_name b.names)
    where
      kept : (o : Option ℕ) → lookup n (or_insert m b o).1.names ≡ some i
      kept (some j) = e
      kept none = ground (arith, e, lookup-append n m.o_name (length b.topics) b.names)

  pub open_topic-found :
      (m : OrbMetadata) (f : Bus W → Bus W) (b : Broker W)
      → IsMap b
      → lookup m.o_name (open_topic m f b).names ≡ some (topic_for m b).0
  unfolding open_topic topic_for
  open_topic-found m f b v = (insert_found m b (lookup m.o_name b.names) refl v).0

  pub open_topic-through :
      (m : OrbMetadata) (f : Bus W → Bus W) (b : Broker W) (i : ℕ)
      → lookup m.o_name b.names ≡ some i
      → open_topic m f b ≡ through i f b
  unfolding open_topic topic_for
  open_topic-through m f b i e =
      ap (λ (o : Option ℕ). let (j, b') = or_insert m b o in through j f b') e
