-- ===== src/Uorb/Topics/Stepped.antt =====
-- One call over several topics: what it does to the topic of its name, and that it leaves the others.
use mathlib.Core.Path.{subst}
use px4_rs.Prelude.{ℕ, ◌≡◌, ◌≢◌, refl, sym, ap, ◌∙◌, Bool, true, false, Option, none, some, List}
use px4_rs.Uorb.Broker.{Bus}
use px4_rs.Uorb.Topics.{OrbMetadata, Broker, lookup, topic_for, through, open_topic}
use px4_rs.Uorb.Topics.Clients.{Access, opening, using, ending, returning, call_with}
use px4_rs.Uorb.Topics.Apart.{
  IsMap, applied, view, view_at, or_new, get_inside, open_topic-IsMap, open_topic-view,
  open_topic-view_ne, open_topic-lookup, open_topic-found, open_topic-through,
}

abbrev pub is_open : Option ℕ → Bool
is_open none = false
is_open (some i) = true

module _ {W : Type 0} where
  -- What a call promises of its own topic, which it makes if it is not there: whether the handle is
  -- open, and the topic.
  abbrev pub promised : Access W → Bool → ℕ → Option (Bus W) → Bool × Option (Bus W)
  promised (opening f) h size t = (true, some (f h (or_new size t)))
  promised (using f) false size t = (false, t)
  promised (using f) true size t = (true, applied f t)
  promised (ending f) false size t = (false, t)
  promised (ending f) true size t = (false, applied f t)
  promised returning h size t = (h, t)

  abbrev pub Names : Option ℕ → List ℕ → Broker W → Type 0
  Names h n b = (i : ℕ) → h ≡ some i → lookup n b.names ≡ some i

  -- What a call leaves of the broker `b`, for metadata `m`.
  pub record Stepped (m : OrbMetadata) (p : Bool × Option (Bus W)) (b : Broker W) (h' : Option ℕ)
      (b' : Broker W) : Type 0 where
    pub map : IsMap b'
    pub named : Names h' m.o_name b'
    pub kept : (n : List ℕ) (i : ℕ) → lookup n b.names ≡ some i → lookup n b'.names ≡ some i
    pub others : (n : List ℕ) → m.o_name ≢ n → view n b' ≡ view n b
    pub opened : is_open h' ≡ p.0
    pub own : view m.o_name b' ≡ p.1

  unchanged :
      (m : OrbMetadata) (h : Option ℕ) (b : Broker W)
      → IsMap b
      → Names h m.o_name b
      → Stepped m (is_open h, view m.o_name b) b h b
  unchanged m h b v named = record {
    map = v;
    named = named;
    kept = λ n i e. e;
    others = λ n d. refl;
    opened = refl;
    own = refl;
  }

  by_opening :
      (m : OrbMetadata) (f : Bus W → Bus W) (b : Broker W)
      → IsMap b
      → Stepped m
          (true, some (f (or_new m.o_size (view m.o_name b))))
          b
          (some (topic_for m b).0)
          (open_topic m f b)
  by_opening m f b v = record {
    map = open_topic-IsMap m f b v;
    named = λ i e. open_topic-found m f b v ∙ e;
    kept = λ n i e. open_topic-lookup m f b n i e;
    others = λ n d. open_topic-view_ne m f b n v d;
    opened = refl;
    own = open_topic-view m f b v;
  }

  there :
      (m : OrbMetadata) (b : Broker W) (i : ℕ)
      → IsMap b
      → lookup m.o_name b.names ≡ some i
      → view m.o_name b ≡ some (or_new m.o_size (view m.o_name b))
  there m b i v e =
      let at : view m.o_name b ≡ view_at b.topics (some i) = ap (view_at b.topics) e in
      at
      ∙ (get_inside b.topics i m.o_size (v.inside m.o_name i e)
          ∙ ap (λ o. some (or_new m.o_size o)) (sym at))

  -- Through a handle that is open.
  by_handle :
      (m : OrbMetadata) (f : Bus W → Bus W) (b : Broker W) (i : ℕ)
      → IsMap b
      → lookup m.o_name b.names ≡ some i
      → Stepped m (true, applied f (view m.o_name b)) b (some i) (through i f b)
  by_handle m f b i v e =
      subst (Stepped m (true, applied f (view m.o_name b)) b (some i))
        (open_topic-through m f b i e)
        (record {
          map = open_topic-IsMap m f b v;
          named = λ j q. open_topic-lookup m f b m.o_name i e ∙ q;
          kept = λ n j q. open_topic-lookup m f b n j q;
          others = λ n d. open_topic-view_ne m f b n v d;
          opened = refl;
          own = open_topic-view m f b v ∙ sym (ap (applied f) (there m b i v e));
        })

  pub call-Stepped :
      (a : Access W) (h : Option ℕ) (m : OrbMetadata) (b : Broker W)
      → IsMap b
      → Names h m.o_name b
      → (let r = call_with a h m b in
          Stepped m (promised a (is_open h) m.o_size (view m.o_name b)) b r.0 r.1)
  unfolding call_with open_topic
  call-Stepped (opening f) none m b v k = by_opening m (f false) b v
  call-Stepped (opening f) (some i) m b v k =
      let s = by_handle m (f true) b i v (k i refl) in
      record {
        map = s.map;
        named = s.named;
        kept = s.kept;
        others = s.others;
        opened = refl;
        own = s.own ∙ ap (applied (f true)) (there m b i v (k i refl));
      }
  call-Stepped (using f) none m b v k = unchanged m none b v k
  call-Stepped (using f) (some i) m b v k = by_handle m f b i v (k i refl)
  call-Stepped (ending f) none m b v k = unchanged m none b v k
  call-Stepped (ending f) (some i) m b v k =
      let s = by_handle m f b i v (k i refl) in
      record {
        map = s.map;
        named = λ j q. cc;
        kept = s.kept;
        others = s.others;
        opened = refl;
        own = s.own;
      }
  call-Stepped returning h m b v k = unchanged m h b v k
