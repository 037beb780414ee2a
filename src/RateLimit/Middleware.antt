-- ===== src/RateLimit/Middleware.antt =====
-- What the middleware lets through, and which counters a refused request touches.
use fmxevolution_go.Base.{String, true, false, ◌≡◌, none, some, [], ◌∷◌, str_eq, Time, concat}
use fmxevolution_go.Base.Effect.{ok, err}
use fmxevolution_go.Domain.{Kind, GoError, domain_error, plain_error}
use fmxevolution_go.RateLimit.{
  RateLimitPolicy, RateLimitDecision, Store, allow, scoped_rate_limit_key, extract_instance_id,
  Request, Outcome, next, limited, failed, named,
}

-- The call of `Allow` for the tenant of a request, and the one for its instance.
abbrev pub tenant_call : RateLimitPolicy → Request → Time → Store → RateLimitDecision × Store
tenant_call p r now m =
    allow (scoped_rate_limit_key p.name "tenant" r.tenant_id) p.limit p.window now m

abbrev pub instance_call :
    RateLimitPolicy → Request → String → Time → Store → RateLimitDecision × Store
instance_call p r inst later m =
    allow (scoped_rate_limit_key p.name "instance" (concat (r.tenant_id ∷ ":" ∷ inst ∷ []))) p.limit
      p.window later m

-- The ways in which a request can end.
pub data Verdict (p : RateLimitPolicy) (r : Request) (now later : Time) (m : Store)
    : Outcome × Store → Type 0 where
  no_tenant :
      str_eq r.tenant_id "" ≡ true
      → Verdict p r now later m (failed (plain_error "unauthorized"), m)
  bad_body :
      (e : GoError)
      → str_eq r.tenant_id "" ≡ false
      → extract_instance_id r ≡ err e
      → Verdict p r now later m
          (failed (domain_error Kind.validation "invalid request body for rate limiting"), m)
  tenant_limited :
      str_eq r.tenant_id "" ≡ false
      → (tenant_call p r now m).0.allowed ≡ false
      → Verdict p r now later m
          (limited (named "tenant" p (tenant_call p r now m).0), (tenant_call p r now m).1)
  passed :
      str_eq r.tenant_id "" ≡ false
      → extract_instance_id r ≡ ok ""
      → (tenant_call p r now m).0.allowed ≡ true
      → Verdict p r now later m
          (next (named "tenant" p (tenant_call p r now m).0) none, (tenant_call p r now m).1)
  instance_limited :
      (inst : String)
      → str_eq r.tenant_id "" ≡ false
      → extract_instance_id r ≡ ok inst
      → (tenant_call p r now m).0.allowed ≡ true
      → (instance_call p r inst later (tenant_call p r now m).1).0.allowed ≡ false
      → Verdict p r now later m (
        limited (named "instance" p (instance_call p r inst later (tenant_call p r now m).1).0),
        (instance_call p r inst later (tenant_call p r now m).1).1,
      )
  passed_instance :
      (inst : String)
      → str_eq r.tenant_id "" ≡ false
      → extract_instance_id r ≡ ok inst
      → (tenant_call p r now m).0.allowed ≡ true
      → (instance_call p r inst later (tenant_call p r now m).1).0.allowed ≡ true
      → Verdict p r now later m (
        next (named "tenant" p (tenant_call p r now m).0) (
            some (
              inst,
              named "instance" p (instance_call p r inst later (tenant_call p r now m).1).0,
            )),
        (instance_call p r inst later (tenant_call p r now m).1).1,
      )

module _ (p : RateLimitPolicy) (r : Request) (now later : Time) (m : Store) where
  abbrev Verdict' : Outcome × Store → Type 0
  Verdict' = Verdict p r now later m
