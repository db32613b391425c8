-- ===== src/Serve/Once.antt =====
-- What the process serves when it is initialised once, and when each request initialises it.
use stealthpipe_relay.Prelude.{
  ℕ, nat_beq, suc, ◌+◌, ◌*◌, true, false, Option, none, some, List, [], ◌∷◌, ◌++◌, Text, codes,
  text_key, ◌==◌, if◌then◌else◌, length, length-append, replicate, ◌≡◌, refl, ap, ◌∙◌, arith,
  text_beq_iff,
}
use stealthpipe_relay.Prelude.{subst, Bool-cases, Option-cases, text_beq, inl, inr}
use stealthpipe_relay.Dict.{lookup, insert}
use stealthpipe_relay.Types.{Server}
use stealthpipe_relay.Serve.{
  is_clean, redirect_handler, Loop, start_cleanup_loop, monitor_traffic, clean_unused_rooms,
  clean_idle_rooms, clean_recently_deleted_room_reasons, stats_pps_ticker, deadlock_watchdog,
  Handler, main_path_handler, handle_create_path, handle_relay, stats_path_handler,
  handle_proof_of_work_endpoint, ping_path_handler, health_path_handler, Process, new_process, Mux,
  handle_func, handle_funcs, routes, background, do_init, call_http, serve_http, serve_https,
}

-- The handler that a clean path is meant for.
abbrev clean_handler_of : Text → Handler
clean_handler_of path =
    if codes "/create" == path
    then handle_create_path
    else if codes "/join" == path
    then handle_relay
    else if codes "/stats" == path
    then stats_path_handler
    else if codes "/pow" == path
    then handle_proof_of_work_endpoint
    else if codes "/ping" == path
    then ping_path_handler
    else if codes "/health" == path
    then health_path_handler
    else main_path_handler

-- The handler that a path is meant for.
abbrev pub handler_of : Text → Handler
handler_of path = if is_clean path then clean_handler_of path else redirect_handler

-- A number for each loop.
abbrev pub number_of : Loop → ℕ
number_of start_cleanup_loop = 0
number_of monitor_traffic = 1
number_of clean_unused_rooms = 2
number_of clean_idle_rooms = 3
number_of clean_recently_deleted_room_reasons = 4
number_of stats_pps_ticker = 5
number_of deadlock_watchdog = 6

-- How often a loop is started.
abbrev pub times_started : Loop → List Loop → ℕ
times_started loop [] = 0
times_started loop (l ∷ loops) =
    let rest = times_started loop loops in
    if nat_beq (number_of loop) (number_of l) then suc rest else rest

abbrev initialised : Server → Process
initialised app = record {
  server = record app { is_healthy = true };
  mux = routes;
  loops = background;
}

abbrev or_main : Option Handler → Option Handler
or_main (some handler) = some handler
or_main none = some main_path_handler

-- The first of the routes that has the path.
abbrev handler_in : Mux → Text → Handler
handler_in [] path = main_path_handler
handler_in ((pattern, handler) ∷ mux) path =
    if pattern == path then handler else handler_in mux path

or_main-handler_in :
    (mux : Mux) (path : Text) → or_main (lookup path mux) ≡ some (handler_in mux path)
unfolding lookup
or_main-handler_in [] path = refl
or_main-handler_in ((pattern, handler) ∷ mux) path = elim (Bool-cases (text_beq pattern path)) [
  | inl same ↦ rw same refl
  | inr other ↦ rw other (or_main-handler_in mux path)
]

handler_in-routes : (path : Text) → handler_in routes path ≡ clean_handler_of path
handler_in-routes path = elim (Bool-cases (text_beq (codes "/") path)) [
  | inl same ↦
      let e = (text_beq_iff (codes "/") path).0 same in
      subst (λ q. handler_in routes q ≡ clean_handler_of q) e refl
  | inr other ↦ rw other refl
]

call_http-or_main :
    (p : Process) (path : Text)
    → lookup (codes "/") p.mux ≡ some main_path_handler
    → is_clean path ≡ true
    → call_http p path ≡ or_main (lookup path p.mux)
unfolding call_http
call_http-or_main p path main clean = rw clean (elim (Option-cases (lookup path p.mux)) [
  | inl missing ↦ rw missing main
  | inr (h, found) ↦ rw found refl
])

do_init-first : (app : Server) → do_init (new_process app) ≡ (initialised app, false)
unfolding do_init handle_funcs handle_func lookup insert
do_init-first app = refl

call_http-initialised :
    (app : Server) (path : Text) → call_http (initialised app) path ≡ some (handler_of path)
unfolding lookup
call_http-initialised app path = elim (Bool-cases (is_clean path)) [
  | inl clean ↦
      call_http-or_main (initialised app) path refl clean
      ∙ (or_main-handler_in routes path ∙ (ap some (handler_in-routes path) ∙ rw clean refl))
  | inr unclean ↦ unfold call_http in rw unclean refl
]

handle_func-taken :
    (pattern : Text) (handler h : Handler) (mux : Mux)
    → lookup pattern mux ≡ some h
    → handle_func pattern handler mux ≡ none
unfolding handle_func
handle_func-taken pattern handler h mux taken = rw (taken, handle_func) refl

handle_funcs-taken :
    (pattern : Text) (handler h : Handler) (rest : List (Text × Handler)) (mux : Mux)
    → lookup pattern mux ≡ some h
    → handle_funcs ((pattern, handler) ∷ rest) mux ≡ (mux, true)
unfolding handle_funcs
handle_funcs-taken pattern handler h rest mux taken =
    rw (handle_func-taken pattern handler h mux taken, handle_funcs) refl

-- The process after another initialisation, which keeps the routes.
abbrev again : Process → Process
again p = record {
  server = record p.server { is_healthy = true };
  mux = p.mux;
  loops = p.loops ++ background;
}

do_init-again :
    (p : Process) (h : Handler) → lookup (codes "/") p.mux ≡ some h → do_init p ≡ (again p, true)
unfolding do_init
do_init-again p h taken = rw (handle_funcs-taken (codes "/") main_path_handler h _ p.mux taken) refl

serve_http-again :
    (p : Process) (h : Handler) (path : Text)
    → lookup (codes "/") p.mux ≡ some h
    → serve_http p path ≡ (again p, none)
unfolding serve_http
serve_http-again p h path taken = rw (do_init-again p h taken) refl

serve_https-again :
    (p : Process) (h : Handler) (paths : List Text)
    → lookup (codes "/") p.mux ≡ some h
    → let (q, handlers) = serve_https p paths in
      (handlers ≡ replicate (length paths) none)
      × (length q.loops ≡ length p.loops + 7 * length paths)
unfolding serve_https
serve_https-again p h [] taken = (refl, omega arith)
serve_https-again p h (path ∷ paths) taken =
    let rest = serve_https-again (again p) h paths taken in
    let added = length-append p.loops background in
    rw (serve_http-again p h path taken) (ap (λ hs. none ∷ hs) rest.0, omega (arith, rest.1, added))

serve_http-first :
    (app : Server) (path : Text)
    → serve_http (new_process app) path ≡ (initialised app, some (handler_of path))
unfolding serve_http
serve_http-first app path = rw (do_init-first app) (rw (call_http-initialised app path) refl)

started_once : (loop : Loop) → times_started loop background ≡ 1
started_once _ = ground arith

-- Initialised once, the process is healthy, has started each of the background loops once and no
-- other, and serves every path with the handler meant for it: one of the seven where the path is
-- clean, and else a redirection. When instead each request initialises it, as `ServeHTTP` does, the first
-- request is served the same, every later one panics, and each starts all seven loops again.
pub served_once :
    (app : Server) (path : Text) (paths : List Text)
    → let (p, panicked) = do_init (new_process app) in
      let (q, handlers) = serve_https (new_process app) (path ∷ paths) in
      (panicked ≡ false)
      × (p.server.is_healthy ≡ true)
      × ((loop : Loop) → times_started loop p.loops ≡ 1)
      × (length p.loops ≡ 7)
      × ((other : Text) → call_http p other ≡ some (handler_of other))
      × (handlers ≡ some (handler_of path) ∷ replicate (length paths) none)
      × (length q.loops ≡ 7 * suc (length paths))
unfolding serve_https lookup
served_once app path paths =
    let later = serve_https-again (initialised app) main_path_handler paths refl in
    rw (do_init-first app, serve_http-first app path)
      (
        refl,
        refl,
        λ loop. started_once loop,
        refl,
        call_http-initialised app,
        ap (λ hs. some (handler_of path) ∷ hs) later.0,
        omega (arith, later.1),
      )
