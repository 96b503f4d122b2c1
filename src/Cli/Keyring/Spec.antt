-- ===== src/Cli/Keyring/Spec.antt =====
-- Different accounts have different entries in the keyring (`keyringServiceSpec` of
-- cli/keyring.go).
use go_imapgrab.Base.{
  ℕ, ◌≡◌, refl, ap, ◌∙◌, false, ◌||◌, [], ◌∷◌, ◌++◌, Bytes, eqb, elem, nat_eq, elem-append, All,
  arith, drop, eq_refl,
}
use go_imapgrab.Decimal.{print_ℤ, is_digit}
use go_imapgrab.Decimal.Digits.{IsNumeric, print_ℤ-All, print_ℤ_injective}
use go_imapgrab.Cli.Root.{RootConfig}
use go_imapgrab.Cli.Keyring.{keyring_service_spec}

-- A text is split in one way only at the last occurrence of a code point.
split_last :
    (c : ℕ) (s s' t t' : Bytes)
    → elem c t ≡ false
    → elem c t' ≡ false
    → s ++ (c ∷ t) ≡ s' ++ (c ∷ t')
    → (s ≡ s') × (t ≡ t')
split_last c [] [] t t' h h' e = (refl, ap (drop 1) e)
split_last c [] (x ∷ s') t t' h h' e =
    absurd (ground (arith, ap (elem c) (ap (drop 1) e), elem-append c s' (c ∷ t'), eq_refl c))
split_last c (x ∷ s) [] t t' h h' e =
    absurd (ground (arith, ap (elem c) (ap (drop 1) e), elem-append c s (c ∷ t), eq_refl c))
split_last c (x ∷ s) (y ∷ s') t t' h h' e =
    let (p, q) = split_last c s s' t t' h h' (ap (drop 1) e) in
    let first : x ≡ y = cc in (rw (first, p) refl, q)

number_without :
    (c : ℕ) (s : Bytes) → (is_digit c || eqb c b'-') ≡ false → All IsNumeric s → elem c s ≡ false
number_without c [] n h = refl
number_without c (d ∷ s) n h = ground (arith, number_without c s n h.1)

no_at :
    (cfg : RootConfig)
    → elem b'@' cfg.server ≡ false
    → elem b'@' (cfg.server ++ (b':' ∷ print_ℤ cfg.port)) ≡ false
no_at cfg h =
    elem-append b'@' cfg.server (b':' ∷ print_ℤ cfg.port)
    ∙ rw (h, number_without b'@' (print_ℤ cfg.port) refl (print_ℤ-All cfg.port)) refl

-- The entry of the keyring determines the user, the server and the port, provided that no server
-- name holds an `@`.
pub keyring_service_spec_injective :
    (cfg cfg' : RootConfig)
    → elem b'@' cfg.server ≡ false
    → elem b'@' cfg'.server ≡ false
    → keyring_service_spec cfg ≡ keyring_service_spec cfg'
    → (cfg.username ≡ cfg'.username) × (cfg.server ≡ cfg'.server) × (cfg.port ≡ cfg'.port)
unfolding keyring_service_spec
keyring_service_spec_injective cfg cfg' h h' e =
    let (users, rest) =
      split_last b'@' cfg.username cfg'.username _ _ (no_at cfg h) (no_at cfg' h')
        (ap (drop 12) e) in
    let (servers, ports) =
      split_last b':' cfg.server cfg'.server _ _
        (number_without b':' (print_ℤ cfg.port) refl (print_ℤ-All cfg.port))
        (number_without b':' (print_ℤ cfg'.port) refl (print_ℤ-All cfg'.port)) rest in
    (users, servers, print_ℤ_injective cfg.port cfg'.port ports)
