-- ===== src/Assessment/Stops.antt =====
-- The stops and the warnings of the resolver, as the assessment will test them.
use amt_trust_check_radar_la.Base.{
  ◌≤◌, ◌≡◌, refl, subst, ◌⊎◌, inl, inr, String, Bool, true, false, ◌&&◌, Option, none, some, List,
  [], ◌∷◌, ◌++◌, all, length, str_eq, Outcome, ok, err, ◌>>=◌, ◌>>◌, raise_if, require, arith,
}
use amt_trust_check_radar_la.Resolver.Loop.{Stop, Target, Hop, Outside, add_warning}
use amt_trust_check_radar_la.Assessment.Evidence.{is_empty}
use amt_trust_check_radar_la.Assessment.Request.{is_reason, has_fragment}

-- the one reason of the resolver that has a digit
abbrev pub ipv6_only : String
ipv6_only = "IPV6_ONLY_UNSUPPORTED"

-- a stop with a reason and a status that may stand in a response
pub record StopOk (s : Stop) : Type 0 where
  pub reason_ok : (s.reason ≡ ipv6_only) ⊎ (is_reason s.reason ≡ true)
  pub status_ok : (s.status ≡ "partial") ⊎ ((s.status ≡ "blocked") ⊎ (s.status ≡ "invalid_input"))

-- What the resolver's surroundings do: a target's URL is its own canonical form and has no fragment,
-- and a stop has one of the resolver's reasons and statuses.
pub record Lawful (o : Outside) : Type 0 where
  pub canonical : (s : String) (t : Target) → o.parse_target s ≡ ok t → o.parse_target t.url ≡ ok t
  pub no_fragment : (s : String) (t : Target) → o.parse_target s ≡ ok t → has_fragment t.url ≡ false
  pub parse_stops : (s : String) (e : Stop) → o.parse_target s ≡ err e → StopOk e
  pub address_stops : (s : String) (e : Stop) → o.public_address s ≡ err e → StopOk e
  pub lookup_stops : (s : String) (e : Stop) → o.addresses s ≡ err e → StopOk e
  pub fetch_stops : (t : Target) (a : String) (e : Stop) → o.fetch t a ≡ err e → StopOk e

abbrev pub Warned : List String → Type 0
Warned ws =
    (ws ≡ [])
    ⊎ ((ws ≡ "UNENCRYPTED_CONNECTION" ∷ [])
        ⊎ (ws ≡ "UNENCRYPTED_CONNECTION" ∷ "HTTPS_TO_HTTP_REDIRECT" ∷ []))

pub not_complete :
    (s : String)
    → ((s ≡ "partial") ⊎ ((s ≡ "blocked") ⊎ (s ≡ "invalid_input")))
    → str_eq s "http_chain_complete" ≡ false
not_complete s (inl e) = rw e refl
not_complete s (inr (inl e)) = rw e refl
not_complete s (inr (inr e)) = rw e refl

pub added-Warned :
    (was insecure : Bool) (ws : List String)
    → Warned ws
    → Warned (
        add_warning
          (was && insecure)
          "HTTPS_TO_HTTP_REDIRECT"
          (add_warning insecure "UNENCRYPTED_CONNECTION" ws))
added-Warned true false ws w = w
added-Warned false false ws w = w
added-Warned true true ws (inl e) = inr (inr (rw e refl))
added-Warned true true ws (inr (inl e)) = inr (inr (rw e refl))
added-Warned true true ws (inr (inr e)) = inr (inr (rw e refl))
added-Warned false true ws (inl e) = inr (inl (rw e refl))
added-Warned false true ws (inr (inl e)) = inr (inl (rw e refl))
added-Warned false true ws (inr (inr e)) = inr (inr (rw e refl))

pub completed_reasons :
    all is_reason ("HTTP_TERMINAL_OBSERVED" ∷ "BROWSER_NAVIGATION_NOT_EVALUATED" ∷ []) ≡ true
unfolding is_reason
completed_reasons = refl

pub snoc_not_empty : (hops : List Hop) (h : Hop) → is_empty (hops ++ (h ∷ [])) ≡ false
snoc_not_empty [] h = refl
snoc_not_empty (x ∷ hops) h = refl

-- Every error is a stop that may stand in a response.
abbrev pub Stops : {A : Type 0} → Outcome Stop A → Type 0
Stops m = (e : Stop) → m ≡ err e → StopOk e

module _ {A : Type 0} where
  pub Stops-ok : (a : A) → Stops (ok a)
  Stops-ok a e h = cc

  pub Stops-bind :
      {B : Type 0} (m : Outcome Stop B) (f : B → Outcome Stop A)
      → Stops m
      → ((b : B) → Stops (f b))
      → Stops (m >>= f)
  unfolding ◌>>=◌
  Stops-bind (ok b) f s k = k b
  Stops-bind (err x) f s k = λ e h. subst StopOk (cc) (s x refl)

  pub Stops-raise_if :
      (c : Bool) (x : Stop) (m : Outcome Stop A) → StopOk x → Stops m → Stops (raise_if c x >> m)
  unfolding ◌>>=◌
  Stops-raise_if true x m s k = λ e h. subst StopOk (cc) s
  Stops-raise_if false x m s k = k

  pub Stops-require :
      {B : Type 0} (q : Option B) (x : Stop) (f : B → Outcome Stop A)
      → StopOk x
      → ((b : B) → Stops (f b))
      → Stops (require q x >>= f)
  unfolding ◌>>=◌
  Stops-require none x f s k = λ e h. subst StopOk (cc) s
  Stops-require (some b) x f s k = k b

pub Stops-required : {B : Type 0} (q : Option B) (x : Stop) → StopOk x → Stops {A = B} (require q x)
unfolding require
Stops-required none x s = λ e h. subst StopOk (cc) s
Stops-required (some b) x s = λ e h. cc

abbrev pub Reasons : List String → Type 0
Reasons codes = (1 ≤ length codes) × (length codes ≤ 8) × (all is_reason codes ≡ true)

pub stopped-Reasons :
    (s : Stop)
    → StopOk s
    → (◌≡◌ {A = List String} (s.reason ∷ []) (ipv6_only ∷ [])) ⊎ Reasons (s.reason ∷ [])
stopped-Reasons s k = elim (k.reason_ok) [
  | inl six ↦ inl (rw six refl)
  | inr fine ↦ inr (omega arith, omega arith, rw fine refl)
]
