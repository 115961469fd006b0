-- ===== src/DockerApi/Finding.antt =====
-- Which containers `Find` returns.
use mailcow_watchdog.Prelude.{
  ◌≡◌, refl, ap, ◌∙◌, subst, Bool, true, false, not, ◌&&◌, String, List, [], ◌∷◌, map, Result, ok,
  err, ◌>>=◌, Bool-cases, by_test, inl, inr, select, All, str_eq, arith,
}
use mailcow_watchdog.DockerApi.{
  Container, Transport, Client, is_mine, listed, list, inspect, fill_in, find, normalise_summary,
  normalise_inspect,
}
use mailcow_watchdog.DockerApi.Dialects.{is_engine}

-- A container without its start time, which is all that `Find` may add.
abbrev pub undated : Container → Container
undated k = record k { started_at = "" }

abbrev pub runs_service : String → Container → Bool
runs_service service k = str_eq k.service service

-- A result that succeeded with containers that are the given ones but for the start times.
abbrev Matches : List Container → Result String (List Container) → Type 0
Matches ks (err e) = Unit
Matches ks (ok found) = map undated found ≡ map undated ks

Matches-cons :
    (k k' : Container) (ks : List Container) (r : Result String (List Container))
    → undated k' ≡ undated k
    → Matches ks r
    → Matches (k ∷ ks) (r >>= λ more. ok (k' ∷ more))
Matches-cons k k' ks (err e) h m = tt
Matches-cons k k' ks (ok more) h m = ap (λ x. x ∷ map undated more) h ∙ ap (λ l. undated k ∷ l) m

selected :
    (p : Container → Bool) (k : Container) (ks : List Container)
    (r : Result String (List Container))
    → p k ≡ true
    → Matches (k ∷ select p ks) r
    → Matches (select p (k ∷ ks)) r
selected p k ks r e m = rw (e) m

unselected :
    (p : Container → Bool) (k : Container) (ks : List Container)
    (r : Result String (List Container))
    → p k ≡ false
    → Matches (select p ks) r
    → Matches (select p (k ∷ ks)) r
unselected p k ks r e m = rw (e) m

filled :
    {World : Type 0} (k : Container) (ks : List Container) (full : Result String Container)
    (rest : Result String (List Container)) (w w' : World)
    → Matches ks rest
    → Matches (k ∷ ks) (
        let r : Result String (List Container) × World = elim full [
          | err e ↦ (err e, w)
          | ok f ↦ (rest >>= λ more. ok (record k { started_at = f.started_at } ∷ more), w')
        ] in
        r.0)
filled k ks (err e) rest w w' m = tt
filled k ks (ok f) rest w w' m =
    Matches-cons k (record k { started_at = f.started_at }) ks rest refl m

module _ {World : Type 0} (io : Transport World) (c : Client) (service : String) where
  fill_in-Matches :
      (ks : List Container) (w : World)
      → Matches (select (runs_service service) ks) (fill_in io c service ks w).0
  unfolding fill_in
  fill_in-Matches [] w = refl
  fill_in-Matches (k ∷ ks) w =
      let all = k ∷ ks in
      by_test
        (λ (r : Result String (List Container) × World).
          Matches (select (runs_service service) all) r.0)
        (not (str_eq k.service service))
        (λ other.
          unselected (runs_service service) k ks _ (ground (arith, other)) (fill_in-Matches ks w))
        (λ same. selected (runs_service service) k ks _ (ground (arith, same)) (
          by_test
            (λ (r : Result String (List Container) × World).
              Matches (k ∷ select (runs_service service) ks) r.0)
            (str_eq k.started_at "" && is_engine c.dialect)
            (λ dated.
              let w₁ = (inspect io k.id w).1 in
              filled k (select (runs_service service) ks) (inspect io k.id w).0
                (fill_in io c service ks w₁).0 w₁ (fill_in io c service ks w₁).1
                (fill_in-Matches ks w₁))
            (λ plain.
              Matches-cons k k (select (runs_service service) ks) (fill_in io c service ks w).0 refl
                (fill_in-Matches ks w))))

  searched :
      (all : Result String (List Container)) (w : World) (found : List Container)
      → (let r : Result String (List Container) × World = elim all [
        | err e ↦ (err e, w)
        | ok ks ↦ fill_in io c service ks w
      ] in
          r.0)
        ≡ ok found
      → (ks : List Container) × (all ≡ ok ks)
        × (map undated found ≡ map undated (select (runs_service service) ks))
  searched (err e) w found h = absurd (ground (arith, h))
  searched (ok ks) w found h =
      (ks, refl, subst (Matches (select (runs_service service) ks)) h (fill_in-Matches ks w))

select-All : (p : Container → Bool) (ks : List Container) → All (λ k. p k ≡ true) (select p ks)
select-All p [] = tt
select-All p (k ∷ ks) =
    by_test (All (λ x. p x ≡ true)) (p k) (λ e. (e, select-All p ks)) (λ e. select-All p ks)

listed-All :
    {A : Type 0} (c : Client) (normalise : A → Container) (raw : Result String (List A))
    (ks : List Container)
    → listed c normalise raw ≡ ok ks
    → All (λ k. is_mine c k ≡ true) ks
listed-All c normalise (err e) ks h = absurd (ground (arith, h))
listed-All c normalise (ok raw) ks h =
    let same : select (is_mine c) (map normalise raw) ≡ ks = ground (arith, h) in
    subst (All (λ k. is_mine c k ≡ true)) same (select-All (is_mine c) (map normalise raw))

module _ {World : Type 0} (io : Transport World) (c : Client) (service : String) where
  list-All :
      (w : World) (ks : List Container) → (list io c w).0 ≡ ok ks → All (λ k. is_mine c k ≡ true) ks
  unfolding list
  list-All w ks h = elim (Bool-cases (is_engine c.dialect)) [
    | inl e ↦ listed-All c normalise_summary (io.list_summaries w).0 ks (rw (e, list) at h)
    | inr e ↦ listed-All c normalise_inspect (io.list_inspects w).0 ks (rw (e, list) at h)
  ]

  -- When `Find` succeeds it returns exactly the listed containers whose service is the given one, in
  -- order and unchanged but for their start times, and each listed container passed the project
  -- filter.
  pub find_lem :
      (w : World) (found : List Container)
      → (find io c service w).0 ≡ ok found
      → (ks : List Container) × ((list io c w).0 ≡ ok ks)
        × (map undated found ≡ map undated (select (runs_service service) ks))
        × All (λ k. is_mine c k ≡ true) ks
  unfolding find
  find_lem w found h =
      let (ks, e, m) = searched io c service (list io c w).0 (list io c w).1 found h in
      (ks, e, m, list-All w ks e)
