-- ===== src/Cli/Main.antt =====
-- The callback `main` of cli.py, which runs before each command, and the output formats of
-- formatter.py. The shell, the versions, the cookie jar and the login request are parameters; what
-- is shown or registered is kept as a list of events, the last one first.
pub mod Laws
use automated_actions.Prelude.{
  ℕ, String, Bool, true, false, not, ◌&&◌, Option, none, some, List, [], ◌∷◌, is_some,
  if◌then◌else◌, ◌==◌, any, get_or,
}
use automated_actions.Dict.{Dict, lookup}
use automated_actions.Text.{◌+++◌, join}
use automated_actions.Errors.{Exc, raised, cli_exit}
use automated_actions.Exec.{Exec, Result, ok, err, pure, raise, lift, modify, ◌>>=◌, ◌>>◌}
use automated_actions.Auth.Request.{truthy}
use automated_actions.Cli.Gssapi.{optional}
use automated_actions.Cli.Version.{Shell, kerberos_available, kinit}

pub data OutputFormat : Type 0 where
  json yaml : OutputFormat

-- `JsonFormatter` and `YamlFormatter`, with their indents; both sort the keys.
pub data Formatter : Type 0 where
  json_formatter yaml_formatter : (indent : ℕ) → (color : Bool) → Formatter

-- How the client is configured: with the headers and a time limit, or with the cookies and the
-- mode of the mutual authentication.
pub data Config (Cookies : Type 0) : Type 0 where
  with_headers : (base_url : String) → Dict String → (timeout : ℕ) → Config Cookies
  with_negotiation : (base_url : String) → Cookies → (mutual_auth : ℕ) → Config Cookies

pub data Event : Type 0 where
  banner outdated progress_started progress_stopped : Event
  -- what is registered for the exit
  progress_stop_registered cookies_save_registered : Event
  excepthook_replaced : Event
  svg_registered : (file title : String) → Event

pub record Options : Type 0 where
  pub url : String
  pub debug : Bool
  pub screen_capture_file : Option String
  pub quiet : Bool
  pub output : OutputFormat
  pub color : Bool

pub record Cli : Type 1 where
  pub shell : Shell
  pub Cookies : Type 0
  -- a missing file is suppressed, and read as no cookies
  pub load_cookies : Exec shell.World Exc Cookies
  -- `get_latest_pypi_version(…) > LOCAL_VERSION`
  pub is_outdated : Exec shell.World Exc Bool
  pub environ : String → Option String
  pub argv : List String
  -- `path.with_suffix(".svg")`
  pub with_svg : String → String
  -- the request for the own user, with the client as it is configured
  pub me : Option (Config Cookies) → Exec shell.World Exc (Unit {0})

pub record Session (World Cookies : Type 0) : Type 0 where
  pub world : World
  pub client : Option (Config Cookies)
  pub formatter : Option Formatter
  pub events : List Event

-- `sys.argv[3:]`, and `" ".join(args[0:2])`
arguments : List String → List String
arguments (program ∷ flag ∷ file ∷ args) = args
arguments (program ∷ flag ∷ []) = []
arguments (program ∷ []) = []
arguments [] = []

first_two : List String → List String
first_two [] = []
first_two (a ∷ []) = a ∷ []
first_two (a ∷ b ∷ args) = a ∷ b ∷ []

title_of : List String → String
unfolding arguments first_two join
title_of argv = join " " (first_two (arguments argv))

pub formatter_of : OutputFormat → Bool → Formatter
formatter_of json color = json_formatter 4 color
formatter_of yaml color = yaml_formatter 2 color

module _ (cli : Cli) where
  open cli use {shell, Cookies, load_cookies, is_outdated, environ, argv, with_svg, me}

  abbrev pub S : Type 0
  S = Session shell.World Cookies

  unfoldable pub on_world : {A : Type 0} → Exec shell.World Exc A → Exec S Exc A
  on_world m s = let run = m s.world in (run.0, record s { world = run.1 })

  unfoldable pub log : Event → Exec S Exc (Unit {0})
  log event = modify λ s. record s { events = event ∷ s.events }

  unfoldable pub configure : Config Cookies → Exec S Exc (Unit {0})
  configure config = modify λ s. record s { client = some config }

  -- `if condition: log(event)`
  pub log_if : Bool → Event → Exec S Exc (Unit {0})
  unfolding log
  log_if true event = log event
  log_if false event = pure tt

  -- The warning and the spinner, if anything is to be shown.
  unfoldable pub start_progress : Bool → Exec S Exc (Unit {0})
  unfolding on_world log log_if
  start_progress false = pure tt
  start_progress true = do
    is_old ← on_world is_outdated
    log_if is_old outdated
    log progress_started
    log progress_stop_registered

  -- The ticket and the cookie jar
  pub ticket : Bool → Exec S Exc Cookies
  unfolding on_world log log_if kinit
  ticket has_progress = do
    log_if has_progress progress_stopped
    on_world (kinit shell)
    log_if has_progress progress_started
    on_world load_cookies

  -- The branch with Kerberos
  unfoldable pub negotiate : String → Bool → Exec S Exc (Unit {0})
  unfolding log configure ticket
  negotiate url has_progress = do
    cookies ← ticket has_progress
    log cookies_save_registered
    configure (with_negotiation url cookies optional)

  -- The choice of the authentication
  unfoldable pub authenticate : String → Bool → Option String → Exec S Exc (Unit {0})
  unfolding configure negotiate kerberos_available
  authenticate url has_progress (some token) =
      configure (with_headers url (("Authorization", "Bearer " +++ token) ∷ []) 15)
  authenticate url has_progress none =
      if kerberos_available shell then negotiate url has_progress else raise (raised cli_exit "1")

  unfoldable pub capture : Option String → Exec S Exc (Unit {0})
  unfolding log title_of
  capture none = pure tt
  capture (some file) = log (svg_registered (with_svg file) (title_of argv))

  unfoldable pub set_formatter : Formatter → Exec S Exc (Unit {0})
  set_formatter formatter = modify λ s. record s { formatter = some formatter }

  -- The login, with the client as it is.
  unfoldable pub login : Exec S Exc (Unit {0})
  unfolding on_world
  login s = on_world (me s.client) s

  -- `main` without "--help"
  unfoldable pub start : Options → Exec S Exc (Unit {0})
  unfolding start_progress log_if authenticate set_formatter formatter_of login capture truthy
  start options = do
    start_progress (not options.quiet && not (is_some options.screen_capture_file))
    log_if (not options.debug) excepthook_replaced
    authenticate options.url (not options.quiet && not (is_some options.screen_capture_file))
        (truthy (environ "AA_TOKEN"))
    set_formatter (formatter_of options.output options.color)
    login
    capture options.screen_capture_file

  -- `main`
  unfoldable pub main : Options → Exec S Exc (Unit {0})
  unfolding log start
  main options = if any (λ arg. arg == "--help") argv then log banner else start options
