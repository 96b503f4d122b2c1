-- ===== src/Cli/Quote.antt =====
-- `quote` and `loginCmdUse` of cli/login.go: the command that the user is told to run.
pub mod Words
use go_imapgrab.Base.{
  ℕ, Bool, true, false, ◌||◌, ◌&&◌, Option, none, some, List, [], ◌∷◌, ◌++◌, Bytes, codes, join,
  eqb, leb, if◌then◌else◌,
}
use go_imapgrab.Cli.Root.{RootConfig}
use go_imapgrab.Decimal.{print_ℤ}

-- unicode.IsSpace: the code points with the property White_Space.
abbrev pub is_space : ℕ → Bool
is_space c =
    (leb 9 c && leb c 13)
    || eqb c 32
    || eqb c 133
    || eqb c 160
    || eqb c 5760
    || (leb 8192 c && leb c 8202)
    || eqb c 8232
    || eqb c 8233
    || eqb c 8239
    || eqb c 8287
    || eqb c 12288

abbrev pub any_space : Bytes → Bool
any_space [] = false
any_space (c ∷ s) = is_space c || any_space s

-- One round of the loop; also the empty text is quoted.
unfoldable pub quote_arg : Bytes → Bytes
quote_arg [] = b'"' ∷ b'"' ∷ []
quote_arg (c ∷ s) = if any_space (c ∷ s) then b'"' ∷ (c ∷ s) ++ (b'"' ∷ []) else c ∷ s

unfoldable pub quote : List Bytes → List Bytes
quote [] = []
quote (arg ∷ args) = quote_arg arg ∷ quote args

-- The words of the login command, without the quotes.
abbrev pub login_words : RootConfig → Bytes → List Bytes
login_words conf program =
    program
    ∷ codes "login"
    ∷ codes "--server"
    ∷ conf.server
    ∷ codes "--port"
    ∷ print_ℤ conf.port
    ∷ codes "--user"
    ∷ conf.username
    ∷ []

-- `none` is the panic of `args[0]`.
unfoldable pub login_cmd_use : RootConfig → List Bytes → Option Bytes
login_cmd_use conf [] = none
login_cmd_use conf (program ∷ args) = some (
    codes "To store credentials in your system keyring, run\n\n  "
    ++ (join (codes " ") (quote (login_words conf program))
        ++ (codes "\n\nThen enter your password at the prompt. Afterwards, run\n\n  "
            ++ (join (codes " ") (quote (program ∷ args))
                ++ codes "\n\nagain and go-imapgrab will take the password from the keyring.\n"))))
