-- ===== src/Probe/Redis/Bans.antt =====
-- Which addresses the Fail2ban probe reports.
use mailcow_watchdog.Prelude.{
  ◌≡◌, refl, sym, ap, ◌∙◌, Bool, true, false, not, ◌&&◌, ◌||◌, String, List, [], ◌∷◌, Option, none,
  some, Result, ok, err, str_eq, eq_iff, select, if◌then◌else◌, arith,
}
use mailcow_watchdog.Prelude.Text.{insert, sort}
use mailcow_watchdog.Health.{Status}
use mailcow_watchdog.Probe.{result}
use mailcow_watchdog.Probe.Redis.{Fail2ban, new_fail2ban, fail2ban_round, has, added_bans}

has-insert : (x y : String) (ys : List String) → has (insert y ys) x ≡ has (y ∷ ys) x
has-insert x y [] = refl
has-insert x y (z ∷ zs) = ground (arith, has-insert x y zs)

has-sort : (x : String) (ys : List String) → has (sort ys) x ≡ has ys x
has-sort x [] = refl
has-sort x (y ∷ ys) = has-insert x y (sort ys) ∙ ap (λ b. str_eq x y || b) (has-sort x ys)

same_test : (p : String → Bool) (x y : String) → str_eq x y ≡ true → p y ≡ p x
same_test p x y e = sym (ap p ((eq_iff x y).0 e))

has-if :
    (b : Bool) (x y : String) (zs : List String)
    → has (if b then y ∷ zs else zs) x ≡ (b && str_eq x y) || has zs x
has-if true x y zs = refl
has-if false x y zs = refl

split_test : (e q px py : Bool) → (e ≡ true → py ≡ px) → (py && e) || (q && px) ≡ (e || q) && px
split_test true q px py h = ground (arith, h)
split_test false q px true h = refl
split_test false q px false h = refl

has-select :
    (p : String → Bool) (x : String) (ys : List String) → has (select p ys) x ≡ has ys x && p x
has-select p x [] = refl
has-select p x (y ∷ ys) =
    has-if (p y) x y (select p ys)
    ∙ ap (λ b. (p y && str_eq x y) || b) (has-select p x ys)
    ∙ split_test (str_eq x y) (has ys x) (p x) (p y) (same_test p x y)

-- What an address is to the probe: fresh, if the last successful read did not show it and there was
-- one.
abbrev pub is_fresh : Option (List String) → List String → String → Bool
is_fresh none bans x = false
is_fresh (some known) bans x = has bans x && not (has known x)

abbrev pub seen_bans :
    Option (List String) → List (Result String (List String)) → Option (List String)
seen_bans seen [] = seen
seen_bans seen (err e ∷ rs) = seen_bans seen rs
seen_bans seen (ok bans ∷ rs) = seen_bans (some bans) rs

abbrev pub fail2ban_after : String → Fail2ban → List (Result String (List String)) → Fail2ban
fail2ban_after name p [] = p
fail2ban_after name p (r ∷ rs) = fail2ban_after name (fail2ban_round name p r).1 rs

-- The memory that matters to the next round.
abbrev Remembers : Option (List String) → Fail2ban → Type 0
Remembers none p = p.seeded ≡ false
Remembers (some known) p = (p.seeded ≡ true) × (p.known ≡ known)

fail2ban_round-memory :
    (name : String) (p : Fail2ban) (bans : List String)
    → (fail2ban_round name p (ok bans)).1
      ≡ record { seeded = true; known = bans; fresh = added_bans p bans }
unfolding fail2ban_round
fail2ban_round-memory name p bans = ground arith

fail2ban_after-Remembers :
    (name : String) (seen : Option (List String)) (rs : List (Result String (List String)))
    (p : Fail2ban)
    → Remembers seen p
    → Remembers (seen_bans seen rs) (fail2ban_after name p rs)
unfolding fail2ban_round
fail2ban_after-Remembers name seen [] p h = h
fail2ban_after-Remembers name seen (err e ∷ rs) p h = fail2ban_after-Remembers name seen rs p h
fail2ban_after-Remembers name seen (ok bans ∷ rs) p h =
    fail2ban_after-Remembers name (some bans) rs _ (
      ap (λ q. q.seeded) (fail2ban_round-memory name p bans),
      ap (λ q. q.known) (fail2ban_round-memory name p bans),
    )

unseeded : (a k b : Bool) → b ≡ false → a && (k && b) ≡ false
unseeded a k b h = ground (arith, h)

seeded_test : (a k b : Bool) → b ≡ true → a && (k && b) ≡ a && k
seeded_test a k b h = ground (arith, h)

memory-fresh :
    (seen : Option (List String)) (p : Fail2ban) (bans : List String) (x : String)
    → Remembers seen p
    → has bans x && (not (has p.known x) && p.seeded) ≡ is_fresh seen bans x
memory-fresh none p bans x h = unseeded (has bans x) (not (has p.known x)) p.seeded h
memory-fresh (some known) p bans x h =
    seeded_test (has bans x) (not (has p.known x)) p.seeded h.0
    ∙ ap (λ k. has bans x && not (has k x)) h.1

added-fresh :
    (seen : Option (List String)) (p : Fail2ban) (bans : List String) (x : String)
    → Remembers seen p
    → has (added_bans p bans) x ≡ is_fresh seen bans x
added-fresh seen p bans x h =
    has-sort x _
    ∙ has-select (λ ban. not (has p.known ban) && p.seeded) x bans
    ∙ memory-fresh seen p bans x h

abbrev pub alarm : List String → Status
alarm [] = Status.ok
alarm (_ ∷ _) = Status.critical

unseeded-select :
    (f : String → Bool) (bans : List String) (b : Bool)
    → b ≡ false
    → select (λ x. f x && b) bans ≡ []
unseeded-select f [] b h = refl
unseeded-select f (x ∷ xs) b h = ground (arith, unseeded-select f xs b h, h)

fail2ban_round-parts :
    (name : String) (seeded : Bool) (known fresh bans : List String)
    → let p : Fail2ban = record { seeded = seeded; known = known; fresh = fresh } in
      (fail2ban_round name p (ok bans)).0.status ≡ alarm (added_bans p bans)
unfolding fail2ban_round result
fail2ban_round-parts name false known fresh bans =
    sym (ap (λ l. alarm (sort l)) (unseeded-select (λ x. not (has known x)) bans false refl))
fail2ban_round-parts name true known fresh bans = ground arith

fail2ban_round-status :
    (name : String) (p : Fail2ban) (bans : List String)
    → (fail2ban_round name p (ok bans)).0.status ≡ alarm (added_bans p bans)
fail2ban_round-status name p bans = fail2ban_round-parts name p.seeded p.known p.fresh bans

-- After any history of reads, failed ones included, a successful read makes fresh exactly the
-- addresses that it shows and the last successful read did not show, none if there was no such
-- read; and the round is CRITICAL if an address is fresh and OK otherwise.
pub fail2ban-reports :
    (name : String) (history : List (Result String (List String))) (bans : List String) (x : String)
    → let (verdict, p) = fail2ban_round name (fail2ban_after name new_fail2ban history) (ok bans) in
      (has p.fresh x ≡ is_fresh (seen_bans none history) bans x) × (verdict.status ≡ alarm p.fresh)
fail2ban-reports name history bans x =
    let p = fail2ban_after name new_fail2ban history in
    let m = ap (λ q. q.fresh) (fail2ban_round-memory name p bans) in
    (
      ap (λ l. has l x) m
          ∙ added-fresh (seen_bans none history) p bans x
              (fail2ban_after-Remembers name none history new_fail2ban refl),
      fail2ban_round-status name p bans ∙ ap alarm (sym m),
    )
