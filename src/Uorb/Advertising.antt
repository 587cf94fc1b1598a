-- ===== src/Uorb/Advertising.antt =====
-- The handle of a publication: when it advertises, and what a race with `unadvertise` does.
use px4_rs.Prelude.{ℕ, ◌≡◌, true, List, [], arith, refl, if-holds, if-true}
use px4_rs.Uorb.Broker.{Bus}
use px4_rs.Uorb.Client.{
  Publication, ok, undefined, unadvertise, ensure_advertised, publish_loaded, publish,
  advertise_multi,
}

module _ {W : Type 0} where
  -- A publish by itself always succeeds on the broker, but if another thread unadvertises between its
  -- two parts it goes through a null handle.
  pub publish_race :
      (d : List ℕ) (p : Publication) (b : Bus W)
      → ((publish d p b).result ≡ ok)
        × ((publish_loaded d
              (unadvertise (ensure_advertised d p b).0)
              (ensure_advertised d p b).1).result
            ≡ undefined)
  unfolding publish publish_loaded ensure_advertised
  publish_race d p b = (ground arith, refl)

  -- A call of `advertise_multi` leaves the publication advertised: a second call returns the instance
  -- that it requests, whatever the first one was, and neither it nor the advertising of a publish
  -- changes the publication or the topic, or wakes anyone.
  pub advertise_multi_once :
      {I : Type 0} (d d' : List ℕ) (r r' : I) (p : Publication) (b : Bus W)
      → (let (i, p', b', ws) = advertise_multi d r p b in
          (advertise_multi d' r' p' b' ≡ (r', p', b', []))
          × (ensure_advertised d' p' b' ≡ (p', b', [])))
  unfolding advertise_multi ensure_advertised
  advertise_multi_once {I} d d' r r' p b =
      let e =
        if-holds (λ (x : I × Publication × Bus W × List W). x.1.handle ≡ true) p.handle (λ h. h)
          (λ _. refl) in
      (if-true _ _ e, if-true _ _ e)
