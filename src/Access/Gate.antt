-- ===== src/Access/Gate.antt =====
-- api/middleware.py: which requests come through to the route, and what the others get.
use langgraph_agent_stack.Prelude.{
  Bool-cases, mem, text, nonempty, Result-cases, ok_injective, ok, ℕ, ◌≡◌, refl, inl, inr, Bool,
  not, ◌||◌, none, some, [], ◌∷◌, text_eq, nat_eq,
}
use mathlib.Core.Path.{subst}
use langgraph_agent_stack.Access.Chain.{auth_exempt_paths}
use langgraph_agent_stack.Access.Body.{
  parse_content_length, body_methods, exceeds, read_capped, ensure_within_limit,
}
use langgraph_agent_stack.Access.Keys.{
  is_accepted, resolved_api_keys, verify_bearer_token, bearer_token,
}
use langgraph_agent_stack.Access.{Request, Settings}

-- what `auth_middleware` looks for in a request it lets through
abbrev pub authenticated : Settings → Request → Bool
authenticated settings request =
    mem request.path auth_exempt_paths
    || not (nonempty (resolved_api_keys settings))
    || is_accepted (
        verify_bearer_token (bearer_token (request.headers (text "Authorization")))
          (resolved_api_keys settings))

pub within_limit-rest :
    (request bounded : Request) (max_bytes : ℕ)
    → ensure_within_limit request max_bytes ≡ ok bounded
    → bounded ≡ record request { chunks = bounded.chunks }
unfolding ensure_within_limit
within_limit-rest request bounded max_bytes h =
    elim (Bool-cases (mem request.method body_methods)) [
      | inr other ↦
          subst (λ r. r ≡ record request { chunks = r.chunks }) (ok_injective _ _ (rw other at h))
            refl
      | inl has_body ↦
          elim (Result-cases (parse_content_length (request.headers (text "content-length")))) [
            | inr (e, bad) ↦ absurd (cc (rw (has_body, bad) at h))
            | inl (none, absent) ↦ elim (Result-cases (read_capped max_bytes [] request.chunks)) [
              | inr (e, long) ↦ absurd (cc (rw (has_body, absent, long) at h))
              | inl (body, fits) ↦
                  subst (λ r. r ≡ record request { chunks = r.chunks })
                    (ok_injective (record request { chunks = body ∷ [] }) bounded
                      (rw (has_body, absent, fits) at h))
                    refl
            ]
            | inl (some n, declared) ↦ elim (Bool-cases (exceeds max_bytes n)) [
              | inl long ↦ absurd (cc (rw (has_body, declared, long) at h))
              | inr fits ↦
                  subst (λ r. r ≡ record request { chunks = r.chunks })
                    (ok_injective request bounded (rw (has_body, declared, fits) at h)) refl
            ]
          ]
    ]
