-- ===== src/Uorb/Topics/Calls.antt =====
-- Calls of publications and subscriptions on several topics of one broker.
use mathlib.Core.Path.{subst}
use px4_rs.Prelude.{
  ℕ, ◌≡◌, ◌≢◌, refl, sym, ap, ◌∙◌, Bool, true, false, Option, none, List, [], ◌∷◌, if◌then◌else◌,
  arith, Bool-cases, inl, inr, if-true, if-false, if-holds,
}
use px4_rs.Text.{equal}
use px4_rs.Text.Words.{equal_refl, equal_sound}
use px4_rs.Uorb.Broker.{Bus}
use px4_rs.Uorb.Topics.{OrbMetadata, lookup}
use px4_rs.Uorb.Topics.Apart.{IsMap, view}
use px4_rs.Uorb.Topics.Clients.{
  Client, publication, subscription, same_client, ClientCall, client_of, Clients, access, call_with,
  client_call, run_clients, no_clients,
}
use px4_rs.Uorb.Topics.Stepped.{is_open, promised, Names, call-Stepped}

same_client_sound : (c d : Client) → same_client c d ≡ true → c ≡ d
same_client_sound (publication i) (publication j) e = ap publication (ground (arith, e))
same_client_sound (subscription i) (subscription j) e = ap subscription (ground (arith, e))
same_client_sound (publication i) (subscription j) e = absurd (cc)
same_client_sound (subscription i) (publication j) e = absurd (cc)

abbrev pub put_open : (Client → Bool) → Client → Bool → Client → Bool
put_open o c h c' = if same_client c c' then h else o c'

module _ {W : Type 0} (metas : Client → OrbMetadata) where
  -- The calls of the clients of topics with this name.
  abbrev pub calls_of : List ℕ → List (ClientCall W) → List (ClientCall W)
  calls_of n [] = []
  calls_of n (x ∷ xs) =
      let rest = calls_of n xs in if equal (metas (client_of x)).o_name n then x ∷ rest else rest

  -- What calls on one topic promise, by themselves: which clients are open, and the topic, which the
  -- first call that opens a handle makes.
  abbrev pub promised_run :
      ℕ → List (ClientCall W) → (Client → Bool) → Option (Bus W) → Option (Bus W)
  promised_run size [] o t = t
  promised_run size (x ∷ xs) o t =
      let c = client_of x in
      let r = promised (access (metas c) x) (o c) size t in
      promised_run size xs (put_open o c r.0) r.1

  record Sim (n : List ℕ) (s : Clients W) (o : Client → Bool) (t : Option (Bus W)) : Type 0 where
    map : IsMap s.broker
    named : (c : Client) → Names (s.held c) (metas c).o_name s.broker
    own : view n s.broker ≡ t
    opened : (c : Client) → (metas c).o_name ≡ n → is_open (s.held c) ≡ o c

  -- The handles after a call.
  named_after :
      (x : ClientCall W) (s : Clients W)
      → IsMap s.broker
      → ((c : Client) → Names (s.held c) (metas c).o_name s.broker)
      → (c : Client)
      → Names ((client_call metas x s).held c) (metas c).o_name (client_call metas x s).broker
  unfolding client_call
  named_after x s map named c' =
      let c = client_of x in
      let r = call_with (access (metas c) x) (s.held c) (metas c) s.broker in
      let st = call-Stepped (access (metas c) x) (s.held c) (metas c) s.broker map (named c) in
      if-holds (λ (h : Option ℕ). Names h (metas c').o_name r.1) (same_client c c')
        (λ e.
          subst (λ (d : Client). Names r.0 (metas d).o_name r.1) (same_client_sound c c' e)
            st.named)
        (λ e i q. st.kept (metas c').o_name i (named c' i q))

  own_call :
      (n : List ℕ) (size : ℕ) (x : ClientCall W) (s : Clients W) (o : Client → Bool)
      (t : Option (Bus W))
      → (metas (client_of x)).o_name ≡ n
      → (metas (client_of x)).o_size ≡ size
      → Sim n s o t
      → (let c = client_of x in
          let p = promised (access (metas c) x) (o c) size t in
          Sim n (client_call metas x s) (put_open o c p.0) p.1)
  unfolding client_call
  own_call n size x s o t name sized sim =
      let c = client_of x in
      let a = access (metas c) x in
      let r = call_with a (s.held c) (metas c) s.broker in
      let st = call-Stepped a (s.held c) (metas c) s.broker sim.map (sim.named c) in
      let view_ok : view (metas c).o_name s.broker ≡ t = ap (λ k. view k s.broker) name ∙ sim.own in
      let same =
        ap (λ h. promised a h (metas c).o_size (view (metas c).o_name s.broker)) (sim.opened c name)
        ∙ (ap (λ z. promised a (o c) z (view (metas c).o_name s.broker)) sized
            ∙ ap (promised a (o c) size) view_ok) in
      record {
        map = st.map;
        named = named_after x s sim.map sim.named;
        own = ap (λ k. view k r.1) (sym name) ∙ (st.own ∙ ap (λ p. p.1) same);
        opened = λ c' e. elim (Bool-cases (same_client c c')) [
          | inl y ↦
              ap is_open (if-true _ _ y) ∙ (st.opened ∙ (ap (λ p. p.0) same ∙ sym (if-true _ _ y)))
          | inr d ↦ ap is_open (if-false _ _ d) ∙ (sim.opened c' e ∙ sym (if-false _ _ d))
        ];
      }

  other_call :
      (n : List ℕ) (x : ClientCall W) (s : Clients W) (o : Client → Bool) (t : Option (Bus W))
      → (metas (client_of x)).o_name ≢ n
      → Sim n s o t
      → Sim n (client_call metas x s) o t
  unfolding client_call
  other_call n x s o t other sim =
      let c = client_of x in
      let a = access (metas c) x in
      let st = call-Stepped a (s.held c) (metas c) s.broker sim.map (sim.named c) in
      record {
        map = st.map;
        named = named_after x s sim.map sim.named;
        own = st.others n other ∙ sim.own;
        opened = λ c' e. elim (Bool-cases (same_client c c')) [
          | inl y ↦ absurd (other (ap (λ d. (metas d).o_name) (same_client_sound c c' y) ∙ e))
          | inr d ↦ ap is_open (if-false _ _ d) ∙ sim.opened c' e
        ];
      }

  run-Sim :
      (xs : List (ClientCall W)) (n : List ℕ) (size : ℕ) (s : Clients W) (o : Client → Bool)
      (t : Option (Bus W))
      → ((c : Client) → (metas c).o_name ≡ n → (metas c).o_size ≡ size)
      → Sim n s o t
      → view n (run_clients metas xs s).broker ≡ promised_run size (calls_of n xs) o t
  unfolding run_clients
  run-Sim [] n size s o t sizes sim = sim.own
  run-Sim (x ∷ xs) n size s o t sizes sim =
      let c = client_of x in
      let p = promised (access (metas c) x) (o c) size t in
      elim (Bool-cases (equal (metas c).o_name n)) [
        | inl e ↦
            let name = equal_sound (metas c).o_name n e in
            run-Sim xs n size (client_call metas x s) (put_open o c p.0) p.1 sizes
              (own_call n size x s o t name (sizes c name) sim)
            ∙ sym (ap (λ ys. promised_run size ys o t) (if-true _ _ e))
        | inr e ↦
            run-Sim xs n size (client_call metas x s) o t sizes
              (other_call n x s o t (λ q. cc (equal_refl n, q, e)) sim)
            ∙ sym (ap (λ ys. promised_run size ys o t) (if-false _ _ e))
      ]

  -- After any sequence of calls of publications and subscriptions on a new broker, for a name for which
  -- all metadata give one size: the topic of that name is what the calls of the clients of that name
  -- promise by themselves, whatever calls of other topics came between. There is none until one of them
  -- opens a handle, which a publish of another size, a count of lost messages and a drop do not do.
  pub calls_apart :
      (xs : List (ClientCall W)) (n : List ℕ) (size : ℕ)
      → ((c : Client) → (metas c).o_name ≡ n → (metas c).o_size ≡ size)
      → view n (run_clients metas xs no_clients).broker
        ≡ promised_run size (calls_of n xs) (λ c. false) none
  unfolding lookup
  calls_apart xs n size sizes =
      run-Sim xs n size no_clients (λ c. false) none sizes
        (record {
          map = record { inside = λ n i h. cc; injective = λ n m i h h'. cc };
          named = λ c i e. cc;
          own = refl;
          opened = λ c e. refl;
        })
