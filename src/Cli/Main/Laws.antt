-- ===== src/Cli/Main/Laws.antt =====
-- With which authentication a command runs.
use automated_actions.Prelude.{
  String, ◌≡◌, refl, sym, Bool, true, false, not, ◌&&◌, Option, none, some, [], ◌∷◌, any, ◌==◌,
  is_some, if◌then◌else◌,
}
use automated_actions.Text.{◌+++◌}
use automated_actions.Errors.{raised, cli_exit}
use automated_actions.Exec.{ok, raise, bind-ok, bind-step, ok-ne-err}
use automated_actions.Auth.Request.{truthy}
use automated_actions.Cli.Gssapi.{optional}
use automated_actions.Cli.Version.{kerberos_available}
use automated_actions.Cli.Main.{
  Cli, Options, S, Config, with_headers, with_negotiation, main, start, authenticate, negotiate,
  ticket, start_progress, log_if, login, configure, on_world, excepthook_replaced, set_formatter,
}

module _ (cli : Cli) where
  -- The configuration that is chosen: the bearer token if there is one, and else a ticket of
  -- Kerberos if there is the command for it.
  pub data IsChosen (url : String) : Option (Config cli.Cookies) → Type 0 where
    by_token :
        (token : String)
        → truthy (cli.environ "AA_TOKEN") ≡ some token
        → IsChosen url (some (with_headers url (("Authorization", "Bearer " +++ token) ∷ []) 15))
    by_kerberos :
        (cookies : cli.Cookies)
        → truthy (cli.environ "AA_TOKEN") ≡ none
        → kerberos_available cli.shell ≡ true
        → IsChosen url (some (with_negotiation url cookies optional))

  authenticate-IsChosen :
      (url : String) (has_progress : Bool) (token : Option String) (s : S cli)
      → truthy (cli.environ "AA_TOKEN") ≡ token
      → (authenticate cli url has_progress token s).0 ≡ ok tt
      → IsChosen url (authenticate cli url has_progress token s).1.client
  unfolding authenticate negotiate configure
  authenticate-IsChosen url has_progress (some token) s e h = by_token token e
  authenticate-IsChosen url has_progress none s e h =
      by_ticket (kerberos_available cli.shell) refl h
    where
      by_ticket :
          (b : Bool)
          → kerberos_available cli.shell ≡ b
          → ((if b then negotiate cli url has_progress else raise (raised cli_exit "1")) s).0
            ≡ ok tt
          → IsChosen url
              ((if b then negotiate cli url has_progress else raise (raised cli_exit "1"))
                s).1.client
      by_ticket true k given =
          let (cookies, got, _) = bind-ok (ticket cli has_progress) _ s given in
          rw (bind-step (ticket cli has_progress) _ s cookies got) (by_kerberos cookies e k)
      by_ticket false k given = absurd (ok-ne-err (sym given))

  -- A command that is not asked for help runs only after the login succeeded, and the login was
  -- made with the bearer token of the environment, or, only if there is none, with Kerberos.
  pub main-IsChosen :
      (options : Options) (s : S cli)
      → any (λ arg. arg == "--help") cli.argv ≡ false
      → (main cli options s).0 ≡ ok tt
      → (c : Option (Config cli.Cookies)) × (w : cli.shell.World) × IsChosen options.url c
        × ((cli.me c w).0 ≡ ok tt)
  unfolding main start login on_world set_formatter
  main-IsChosen options s not_help h =
      let has_progress = not options.quiet && not (is_some options.screen_capture_file) in
      let (_, _, h1) = bind-ok (start_progress cli has_progress) _ s (rw not_help at h) in
      let (_, _, h2) = bind-ok (log_if cli (not options.debug) excepthook_replaced) _ _ h1 in
      let (_, done, h3) =
        bind-ok (authenticate cli options.url has_progress (truthy (cli.environ "AA_TOKEN"))) _ _
          h2 in
      let (_, logged_in, _) = bind-ok (login cli) _ _ h3 in
      (_, _, authenticate-IsChosen options.url has_progress _ _ refl done, logged_in)
