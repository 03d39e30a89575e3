-- ===== src/Auth/Tokens.antt =====
-- platform/esp32/main/auth.cpp: the token of the API.
use svs_bridge.Base.{
  ℕ, ◌≡◌, ◌↔◌, inl, inr, ap, sym, ◌∙◌, true, List, arith, ◌==◌, Bool-cases, length,
}
use svs_bridge.Auth.{State, Nvs, equal, api_token, api_token_valid}
use svs_bridge.Auth.Equal.{equal-eq, equal_self}

module _ {W : Type 0} (nvs : Nvs W) (random candidate : List ℕ) (s : State) (w : W) where
  token_matches :
      (token : List ℕ)
      → (length candidate ≡ 64) × (candidate ≡ token)
      → (length candidate == 64 ≡ true)
        × (length token == length candidate ≡ true)
        × (equal token candidate ≡ true)
  token_matches token (sized, same) =
      (ground arith, ground (arith, ap length same), ap (equal token) same ∙ equal_self token)

  -- What api_token_valid accepts is what api_token gives, where that has 64 characters, and nothing else.
  pub api_token_valid_iff :
      ((api_token_valid nvs random candidate s w).0 ≡ true)
      ↔ ((length candidate ≡ 64) × (candidate ≡ (api_token nvs random s w).0))
  unfolding api_token_valid
  api_token_valid_iff =
      let token = (api_token nvs random s w).0 in
      (
        λ h. elim (Bool-cases (length candidate == 64)) [
          | inr f ↦ absurd (ground (arith, rw f at h))
          | inl t ↦ elim (Bool-cases (length (api_token nvs random s w).0 == length candidate)) [
            | inr f ↦ absurd (ground (arith, rw (t, f) at h))
            | inl u ↦ (
              ground arith,
              sym (equal-eq (api_token nvs random s w).0 candidate (ground arith) (rw (t, u) at h)),
            )
          ]
        ],
        λ both. let (sized, long, same) = token_matches token both in rw (sized, long) same,
      )
