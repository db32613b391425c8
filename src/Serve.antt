-- ===== src/Serve.antt =====
-- src/core/Serve.go and src/Main.go: the start of the process, its loops and its routes.
pub mod Once
use stealthpipe_relay.Prelude.{
  ℕ, Bool, true, false, not, ◌&&◌, ◌||◌, ◌==◌, nat_key, Option, none, some, List, [], ◌∷◌, ◌++◌,
  Text, codes, text_key, is_empty, if◌then◌else◌,
}
use stealthpipe_relay.Dict.{Dict, lookup, insert}
use stealthpipe_relay.Types.{Server}

-- The variable `PORT`, where a missing one is empty.
unfoldable pub get_port : Text → Text
get_port port = if is_empty port then codes "7860" else port

-- `main` panics where metrics are asked for without a key, an address or a user.
unfoldable pub metrics_refused : Bool → Text → Text → Text → Bool
metrics_refused using key url user = using && (is_empty key || (is_empty url || is_empty user))

-- The loops that run beside the handlers.
pub data Loop : Type 0 where
  start_cleanup_loop monitor_traffic clean_unused_rooms clean_idle_rooms : Loop
  clean_recently_deleted_room_reasons stats_pps_ticker deadlock_watchdog : Loop

pub data Handler : Type 0 where
  main_path_handler handle_create_path handle_relay stats_path_handler : Handler
  handle_proof_of_work_endpoint ping_path_handler health_path_handler : Handler
  -- `http.RedirectHandler` to the clean path
  redirect_handler : Handler

abbrev pub Mux : Type 0
Mux = Dict Text Handler

pub record Process : Type 0 where
  pub server : Server
  pub mux : Mux
  pub loops : List Loop

-- `http.ServeMux.HandleFunc` panics at a pattern that is registered already.
unfoldable pub handle_func : Text → Handler → Mux → Option Mux
handle_func pattern handler mux = elim (lookup pattern mux) [
  | none ↦ some (insert pattern handler mux)
  | some _ ↦ none
]

-- The patterns are registered one after another; the flag says whether one has panicked.
unfoldable pub handle_funcs : List (Text × Handler) → Mux → Mux × Bool
handle_funcs [] mux = (mux, false)
handle_funcs ((pattern, handler) ∷ routes) mux = elim (handle_func pattern handler mux) [
  | none ↦ (mux, true)
  | some mux' ↦ handle_funcs routes mux'
]

abbrev pub routes : List (Text × Handler)
routes =
    (codes "/", main_path_handler)
    ∷ (codes "/create", handle_create_path)
    ∷ (codes "/join", handle_relay)
    ∷ (codes "/stats", stats_path_handler)
    ∷ (codes "/pow", handle_proof_of_work_endpoint)
    ∷ (codes "/ping", ping_path_handler)
    ∷ (codes "/health", health_path_handler)
    ∷ []

-- In the order in which they are started.
abbrev pub background : List Loop
background =
    start_cleanup_loop ∷ monitor_traffic ∷ clean_unused_rooms ∷ clean_idle_rooms
    ∷ clean_recently_deleted_room_reasons ∷ stats_pps_ticker ∷ deadlock_watchdog ∷ []

-- `DoInit`, with whether it panics: the server is healthy before the watchdog has looked, and the loops
-- are started before the routes are registered.
unfoldable pub do_init : Process → Process × Bool
do_init p =
    let (mux, panicked) = handle_funcs routes p.mux in
    (
      record {
        server = record p.server { is_healthy = true };
        mux = mux;
        loops = p.loops ++ background;
      },
      panicked,
    )

-- The segments of a clean path are neither empty, but for the last one, nor `.` or `..`.
abbrev pub is_dots : Text → Bool
is_dots segment = codes "." == segment || codes ".." == segment

abbrev pub is_clean_from : Text → Text → Bool
is_clean_from segment [] = not (is_dots segment)
is_clean_from segment (c ∷ path) =
    let rest = is_clean_from (if c == b'/' then [] else segment ++ c ∷ []) path in
    if c == b'/' then not (is_empty segment || is_dots segment) && rest else rest

-- That `http.ServeMux` leaves a path as it is: it starts with a slash, and is clean.
abbrev pub is_clean : Text → Bool
is_clean [] = false
is_clean (c ∷ path) = c == b'/' && is_clean_from [] path

-- The handler that the mux finds for a path. Of the patterns that end in a slash, and so stand for all
-- paths below, the code has `/` only; a path that is not clean is redirected to the clean one.
unfoldable pub call_http : Process → Text → Option Handler
call_http p path =
    if is_clean path
    then elim (lookup path p.mux) [ some handler ↦ some handler | none ↦ lookup (codes "/") p.mux ]
    else some redirect_handler

-- `ServeHTTP`: each request initialises first. `none` is the panic, which ends the request only.
unfoldable pub serve_http : Process → Text → Process × Option Handler
serve_http p path =
    let (p', panicked) = do_init p in (p', if panicked then none else call_http p' path)

unfoldable pub serve_https : Process → List Text → Process × List (Option Handler)
serve_https p [] = (p, [])
serve_https p (path ∷ paths) =
    let (p', handler) = serve_http p path in
    let (q, handlers) = serve_https p' paths in (q, handler ∷ handlers)

-- The process of `NewServer`, before it is initialised.
abbrev pub new_process : Server → Process
new_process app = record { server = app; mux = []; loops = [] }
