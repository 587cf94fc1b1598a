-- ===== src/Macros/Task/Expansion.antt =====
-- Which attributes and functions the macro takes.
use px4_rs.Prelude.{
  ℕ, ◌≡◌, ◌↔◌, Bool, true, Option, none, some, List, [], ◌∷◌, refl, ap, sym, ◌++◌, ◌∙◌, arith,
}
use px4_rs.Text.{codes, equal}
use px4_rs.Macros.{FnArg, receiver, typed, Signature, NamedArg}
use px4_rs.Macros.Task.{
  FoundCrate, TaskExpanded, done, refused, then_task, parse_task_args, returns_nothing,
  arg_patterns, workqueue_path, TaskItems, task_items, expand_task, task_macro,
}

-- Every key is `wq`.
abbrev pub AllWq : List NamedArg → Type 0
AllWq [] = Unit
AllWq (p ∷ ps) = (equal p.key (codes "wq") ≡ true) × AllWq ps

-- The value of the last argument, or `wq`.
abbrev pub last_value : Option (List ℕ) → List NamedArg → Option (List ℕ)
last_value wq [] = wq
last_value wq (p ∷ ps) = last_value (some p.value) ps

parse-AllWq :
    (wq : Option (List ℕ)) (args : List NamedArg) (q : List ℕ)
    → parse_task_args wq args ≡ done q
    → AllWq args × (last_value wq args ≡ some q)
unfolding parse_task_args
parse-AllWq none [] q h = absurd (ground arith)
parse-AllWq (some w) [] q h = (tt, ground arith)
parse-AllWq wq (p ∷ ps) q h =
    let key : equal p.key (codes "wq") ≡ true = ground arith in
    let rest : AllWq ps × (last_value (some p.value) ps ≡ some q) =
      parse-AllWq (some p.value) ps q (ground (arith, key)) in
    ((key, rest.0), rest.1)

AllWq-parse :
    (wq : Option (List ℕ)) (args : List NamedArg) (q : List ℕ)
    → AllWq args
    → last_value wq args ≡ some q
    → parse_task_args wq args ≡ done q
unfolding parse_task_args
AllWq-parse none [] q k h = absurd (ground arith)
AllWq-parse (some w) [] q k h = ground arith
AllWq-parse wq (p ∷ ps) q (key, keys) h =
    let rest : parse_task_args (some p.value) ps ≡ done q =
      AllWq-parse (some p.value) ps q keys h in
    ground arith

-- The arguments with these patterns, none of them `self`.
abbrev pub typed_args : List (List ℕ) → List FnArg
typed_args [] = []
typed_args (p ∷ ps) = typed p ∷ typed_args ps

then-done :
    {A B : Type 0} (r : TaskExpanded A) (f : A → TaskExpanded B) (b : B)
    → then_task r f ≡ done b
    → (a : A) × (r ≡ done a) × (f a ≡ done b)
then-done (done a) f b h = (a, refl, h)
then-done (refused e) f b h = absurd (ground arith)

patterns-typed :
    (fs : List FnArg) (ps : List (List ℕ)) → arg_patterns fs ≡ done ps → fs ≡ typed_args ps
unfolding arg_patterns
patterns-typed [] ps h = let e : [] ≡ ps = ground arith in ap typed_args e
patterns-typed (receiver ∷ rest) ps h = absurd (ground arith)
patterns-typed (typed p ∷ rest) ps h =
    let (qs, found, e) = then-done (arg_patterns rest) (λ qs. done (p ∷ qs)) ps h in
    let all_patterns : p ∷ qs ≡ ps = ground arith in
    ap (λ r. typed p ∷ r) (patterns-typed rest qs found) ∙ ap typed_args all_patterns

typed-patterns : (ps : List (List ℕ)) → arg_patterns (typed_args ps) ≡ done ps
unfolding arg_patterns
typed-patterns [] = refl
typed-patterns (p ∷ ps) = ap (λ r. then_task r (λ qs. done (p ∷ qs))) (typed-patterns ps)

module _ (found_crate : List ℕ → Option FoundCrate) (accepts : List ℕ → Bool) where
  -- An async function of the arguments `ps` that returns nothing, under the work queue `q`.
  abbrev pub Accepted : List NamedArg → Signature → List ℕ → List (List ℕ) → Type 0
  Accepted args s q ps =
      AllWq args
      × (last_value none args ≡ some q)
      × (s.is_async ≡ true)
      × (returns_nothing s.output ≡ true)
      × (accepts q ≡ true)
      × (s.inputs ≡ typed_args ps)

  expand-done :
      (s : Signature) (q : List ℕ) (t : TaskItems)
      → expand_task found_crate accepts q s ≡ done t
      → (ps : List (List ℕ)) × (s.is_async ≡ true)
        × (returns_nothing s.output ≡ true)
        × (accepts q ≡ true)
        × (s.inputs ≡ typed_args ps)
        × (task_items found_crate accepts q s ps ≡ t)
  unfolding expand_task
  expand-done s q t h =
      let inner : then_task (arg_patterns s.inputs)
            (λ ps. done (task_items found_crate accepts q s ps))
          ≡ done t =
        ground arith in
      let (ps, found, e) =
        then-done (arg_patterns s.inputs) (λ ps. done (task_items found_crate accepts q s ps)) t
          inner in
      (ps, ground arith, ground arith, ground arith, patterns-typed s.inputs ps found, ground arith)

  done-expand :
      (args : List NamedArg) (s : Signature) (q : List ℕ) (ps : List (List ℕ))
      → Accepted args s q ps
      → task_macro found_crate accepts args s ≡ done (task_items found_crate accepts q s ps)
  unfolding task_macro expand_task
  done-expand args s q ps (keys, value, a, b, c, d) =
      let patterns : arg_patterns s.inputs ≡ done ps = ap arg_patterns d ∙ typed-patterns ps in
      let inner : then_task (arg_patterns s.inputs)
            (λ qs. done (task_items found_crate accepts q s qs))
          ≡ done (task_items found_crate accepts q s ps) =
        ap (λ r. then_task r (λ qs. done (task_items found_crate accepts q s qs))) patterns in
      ap (λ r. then_task r (λ wq. expand_task found_crate accepts wq s))
        (AllWq-parse none args q keys value)
      ∙ ground arith

  -- The macro generates a module exactly if every key is `wq`, there is one, the function is async and
  -- returns `()` or `!` or has no return type, the last value of `wq` is accepted as a name, and no
  -- argument is `self`. The module then has the name of the function, with a NUL behind it as the name
  -- of the task, starts it on the work queue of that last value, and passes on the patterns of the
  -- arguments in order.
  pub task_macro_iff :
      (args : List NamedArg) (s : Signature) (t : TaskItems)
      → (task_macro found_crate accepts args s ≡ done t) ↔ (
          (q : List ℕ) × (ps : List (List ℕ)) × Accepted args s q ps
          × (t.mod_name ≡ s.ident)
          × (t.task_name ≡ s.ident ++ (0 ∷ []))
          × (t.crate_path ≡ workqueue_path found_crate)
          × (t.wq ≡ q)
          × (t.forwarded ≡ ps))
  unfolding task_macro
  task_macro_iff args s t = (
    λ h.
        let (q, parsed, expanded) =
          then-done (parse_task_args none args) (λ wq. expand_task found_crate accepts wq s) t h in
        let (keys, value) = parse-AllWq none args q parsed in
        let (ps, a, b, c, d, e) = expand-done s q t expanded in
        (
          q,
          ps,
          (keys, value, a, b, c, d),
          ap (λ (x : TaskItems). x.mod_name) (sym e),
          ap (λ (x : TaskItems). x.task_name) (sym e),
          ap (λ (x : TaskItems). x.crate_path) (sym e),
          ap (λ (x : TaskItems). x.wq) (sym e),
          ap (λ (x : TaskItems). x.forwarded) (sym e),
        ),
    λ (q, ps, accepted, m, n, c, w, f).
        done-expand args s q ps accepted
        ∙ ap done (λ i. record {
          mod_name = sym m i;
          task_name = sym n i;
          crate_path = sym c i;
          wq = sym w i;
          forwarded = sym f i;
        }),
  )
