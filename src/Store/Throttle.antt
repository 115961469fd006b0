-- ===== src/Store/Throttle.antt =====
-- The throttle of the notifications over Redis.
use mailcow_watchdog.Prelude.{
  ℕ, ◌<◌, ◌≡◌, refl, sym, subst, ap, ◌∙◌, Bool, true, false, not, String, [], ◌∷◌, none, some,
  Result, ok, err, if◌then◌else◌, arith,
}
use mailcow_watchdog.Prelude.Format.{concat}
use mailcow_watchdog.Notify.{
  Alert, Notifier, Reserver, Dispatcher, allows, admit, deliver, dispatch,
}
use mailcow_watchdog.Prelude.Int.{ℤ}
use mailcow_watchdog.Store.{Client, throttle_prefix, settle_reserve, reserve}

-- What the store relies on when Redis answers: SET NX says whether the key was free, and leaves it
-- taken; TTL does not free a key. `taken` is the state of a key in the world.
pub record HonoursNx {World : Type 0} (redis : Client World) (taken : String → World → Bool)
    : Type 0 where
  pub answers :
      (key value : String) (ttl : ℕ) (w : World) (b : Bool)
      → (redis.set_nx key value ttl w).0 ≡ ok b
      → b ≡ not (taken key w)
  pub takes :
      (key value : String) (ttl : ℕ) (w : World) (b : Bool)
      → (redis.set_nx key value ttl w).0 ≡ ok b
      → taken key (redis.set_nx key value ttl w).1 ≡ true
  pub keeps : (key : String) (w : World) → taken key w ≡ true → taken key (redis.ttl key w).1 ≡ true

abbrev pub slot : String → String
slot service = concat (throttle_prefix ∷ service ∷ [])

settled :
    {World : Type 0} (full : String) (answer : Result String Bool) (left : Result String ℤ)
    (w w' : World) (b : Bool)
    → answer ≡ ok b
    → let (verdict, end) = settle_reserve full answer left w w' in
      (allows verdict ≡ b) × (end ≡ (if b then w else w'))
settled full (err e) left w w' b h = absurd (ground (arith, h))
settled full (ok true) left w w' true h = (refl, refl)
settled full (ok false) left w w' false h = (refl, refl)
settled full (ok true) left w w' false h = absurd (ground (arith, h))
settled full (ok false) left w w' true h = absurd (ground (arith, h))

if_taken :
    {World : Type 0} (P : World → Type 0) (b : Bool) {x y : World}
    → P x
    → P y
    → P (if b then x else y)
if_taken P true p q = p
if_taken P false p q = q

swapped {ℓ} : {A : Type ℓ} (b : Bool) (x y : A) → (if not b then x else y) ≡ (if b then y else x)
swapped true x y = refl
swapped false x y = refl

dispatch-verdict :
    {World : Type 0} (d : Dispatcher World) (send : Notifier World) (reserver : Reserver World)
    (a : Alert) (w : World)
    → d.notifier ≡ some send
    → d.reserver ≡ some reserver
    → 0 < a.throttle
    → let (answer, w') = reserver a.service a.throttle w in
      dispatch d a w ≡ (if allows answer then deliver d send a w' else (none, w'))
unfolding dispatch admit
dispatch-verdict d send reserver a w n r t = ground arith

module _ {World : Type 0} (redis : Client World) (taken : String → World → Bool) where
  reserve_lem :
      HonoursNx redis taken
      → (service : String) (ttl : ℕ) (w : World) (b : Bool)
      → (redis.set_nx (slot service) "1" ttl w).0 ≡ ok b
      → let (answer, w') = reserve redis service ttl w in
        (allows answer ≡ not (taken (slot service) w)) × (taken (slot service) w' ≡ true)
  unfolding reserve
  reserve_lem h service ttl w b e =
      let w₁ = (redis.set_nx (slot service) "1" ttl w).1 in
      let (left, w₂) = redis.ttl (slot service) w₁ in
      let (allowed, end) = settled (slot service) _ left w₁ w₂ b e in
      let free = h.takes (slot service) "1" ttl w b e in
      (
        allowed ∙ h.answers (slot service) "1" ttl w b e,
        subst (λ v. taken (slot service) v ≡ true) (sym end)
            (if_taken (λ v. taken (slot service) v ≡ true) b free (h.keeps (slot service) w₁ free)),
      )

  -- An alert with a throttle, dispatched while Redis answers, is delivered exactly if the slot of
  -- its service is free, and otherwise dropped without an error; afterwards the slot is taken.
  pub dispatch-once :
      HonoursNx redis taken
      → (d : Dispatcher World) (send : Notifier World) (a : Alert) (w : World) (b : Bool)
      → d.notifier ≡ some send
      → d.reserver ≡ some (reserve redis)
      → 0 < a.throttle
      → (redis.set_nx (slot a.service) "1" a.throttle w).0 ≡ ok b
      → let w' = (reserve redis a.service a.throttle w).1 in
        (dispatch d a w ≡ (if taken (slot a.service) w then (none, w') else deliver d send a w'))
        × (taken (slot a.service) w' ≡ true)
  dispatch-once h d send a w b n r t e =
      let (allowed, now_taken) = reserve_lem h a.service a.throttle w b e in
      let w' = (reserve redis a.service a.throttle w).1 in
      (
        dispatch-verdict d send (reserve redis) a w n r t
            ∙ ap (λ c. if c then deliver d send a w' else (none, w')) allowed
            ∙ swapped (taken (slot a.service) w) (deliver d send a w') (none, w'),
        now_taken,
      )
