-- ===== src/Join/Version.antt =====
-- Which client versions the relay serves.
use stealthpipe_relay.Prelude.{ℕ, Option, none, some, [], ◌∷◌, Text, ◌≡◌, ◌≢◌, refl, ◌↔◌, arith}
use stealthpipe_relay.Types.{ServerConfig}
use stealthpipe_relay.Join.{compare_majors, check_version}

-- Both versions can be read and have one major number.
abbrev pub SameMajor : Option ℕ → Option ℕ → Type 0
SameMajor relay version = (m : ℕ) × (relay ≡ some m) × (version ≡ some m)

compare_majors-SameMajor :
    (major : Text → Option ℕ) (relay version : Option ℕ)
    → (compare_majors major relay version ≡ none) ↔ SameMajor relay version
unfolding compare_majors
compare_majors-SameMajor major none version = (λ h. cc, λ s. absurd (cc (s.1)))
compare_majors-SameMajor major (some m) none = (λ h. cc, λ s. absurd (cc (s.2)))
compare_majors-SameMajor major (some m) (some n) =
    (λ h. (m, refl, ground arith), λ s. let (k, p, q) = s in ground arith)

-- A version is served exactly when it is not empty and has the major number of the relay's own.
pub check_version-SameMajor :
    (major : Text → Option ℕ) (config : ServerConfig) (version : Text)
    → (check_version major config version ≡ none)
      ↔ ((version ≢ []) × SameMajor (major config.relay_version) (major version))
unfolding check_version
check_version-SameMajor major config [] = (λ h. cc, λ s. absurd (s.0 refl))
check_version-SameMajor major config (c ∷ version) = (
  λ h. (λ e. cc, (compare_majors-SameMajor major (major config.relay_version) _).0 h),
  λ s. (compare_majors-SameMajor major (major config.relay_version) _).1 s.1,
)
