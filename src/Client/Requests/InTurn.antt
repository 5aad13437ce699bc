-- ===== src/Client/Requests/InTurn.antt =====
-- The requests are sent in turn, and all of them.
use quicsy.Prelude.{
  ℕ, zero, suc, ◌+◌, ◌-◌, ◌%◌, ◌≡◌, ◌≢◌, ◌⊎◌, ◌≤◌, ◌<◌, refl, subst, ap, arith, Bool, true, false,
  Bytes, Option, none, some, List, [], ◌∷◌, map, ltb, ltb→lt, Bool-cases, if◌then◌else◌, length,
  get_elem?, inl, inr,
}
use quicsy.Server.Response.{Header}
use quicsy.Client.Download.{
  Request, Stream, new_stream, Opened, opened, not_opened, already_open, with_fd, with_name,
  name_of, base_name, open_file,
}
use quicsy.Client.Requests.{
  Opening, stream_id, id_blocked, open_error, Http, Config, Client, Failure, open_blocked,
  open_failed, setup_failed, submit_failed, fail, Outcome, returns, aborts, divides_by_zero,
  Attempt, made, left, has_data, request_at, request_headers, after_submit, submit_http_request,
  after_open, download_to, if_submitted, serve, open_next, count_one, go_on, open_streams,
  on_extend_max_streams, if_set_up, open_first, make_stream_early,
}

get_elem?-inside : (rs : List Request) (i : ℕ) → i < length rs → get_elem? rs i ≢ none
get_elem?-inside [] i l = absurd (let k : i < 0 = l in omega arith)
get_elem?-inside (r ∷ rs) zero l = λ e. cc
get_elem?-inside (r ∷ rs) (suc i) l = get_elem?-inside rs i (omega arith)

no_request : (rs : List Request) (n : ℕ) → request_at rs n ≡ none → rs ≡ []
no_request [] n e = refl
no_request (r ∷ rs) n e = absurd (get_elem?-inside (r ∷ rs) (n % length (r ∷ rs)) (omega arith) e)

module _ (h : Http) (open_fd : Bytes → Option ℕ) (cfg : Config) where
  open h use {State, open_bidi_stream, setup_httpconn, submit_request}

  abbrev pub headers_before : Option Request → List (List Header) → List (List Header)
  headers_before none ls = ls
  headers_before (some req) ls = request_headers cfg req ∷ ls

  -- What `n` streams carry, latest first: the requests in turn, again from the first when there are
  -- more streams than requests.
  unfoldable pub turns : ℕ → List (List Header)
  turns zero = []
  turns (suc n) = headers_before (request_at cfg.requests n) (turns n)

  abbrev pub InTurn : Client State → Type 0
  InTurn c = map (λ e. e.1) c.submitted ≡ turns c.nstreams_done

  -- The counter does not pass the number of streams asked for.
  abbrev pub Within : Client State → Type 0
  Within c = InTurn c × (c.nstreams_done ≤ cfg.nstreams)

  -- `goal` streams are counted in the end and no call has failed, or the last call of the run is the
  -- one that failed; `before` has the failures before the run.
  abbrev pub Served : ℕ → List Failure → Outcome State → Type 0
  Served goal before (returns c) =
      Within c
      × (((c.nstreams_done ≡ goal) × (c.failures ≡ before))
          ⊎ ((f : Failure) × (c.failures ≡ f ∷ before)))
  Served goal before (aborts c) = c.failures ≡ open_failed ∷ before
  Served goal before divides_by_zero = cfg.requests ≡ []

  -- What `on_extend_max_streams` is for: all the streams, once there is no delay.
  abbrev pub all_streams : Client State → ℕ
  all_streams c = if c.delayed then c.nstreams_done else cfg.nstreams

  -- What `make_stream_early` is for: one more stream, if one is left.
  abbrev pub one_stream : Client State → ℕ
  one_stream c = if ltb c.nstreams_done cfg.nstreams then c.nstreams_done + 1 else c.nstreams_done

  -- Behind an attempt that began with `n` streams.
  abbrev Attempted : ℕ → List Failure → ℕ → Attempt State → Type 0
  Attempted goal before n (made c) =
      InTurn (count_one h open_fd cfg c) × (c.nstreams_done ≡ n) × (c.failures ≡ before)
  Attempted goal before n (left r) = Served goal before r

  abbrev Ready : Client State → Type 0
  Ready c = InTurn c × (c.nstreams_done < cfg.nstreams)

  Ready-Within : (c : Client State) → Ready c → Within c
  Ready-Within c (t, l) = (t, omega arith)

  refuses :
      (goal : ℕ) (f : Failure) (c : Client State)
      → Ready c
      → Served goal c.failures (returns (fail h open_fd cfg f c))
  refuses goal f c k = (Ready-Within c k, inr (f, refl))

  next_turn :
      (c : Client State) (req : Request) (hs : List Header) (id : ℕ)
      → request_at cfg.requests c.nstreams_done ≡ some req
      → InTurn c
      → request_headers cfg req ∷ map (λ e. e.1) c.submitted ≡ turns (c.nstreams_done + 1)
  unfolding turns
  next_turn c req hs id e t =
      let d : suc c.nstreams_done ≡ c.nstreams_done + 1 = omega arith in
      subst (λ n. request_headers cfg req ∷ map (λ e. e.1) c.submitted ≡ turns n) d
        (rw e (ap (λ ls. request_headers cfg req ∷ ls) t))

  opens :
      (goal : ℕ) (o : Opened) (c : Client State)
      → o ≢ already_open
      → InTurn (count_one h open_fd cfg c)
      → Attempted goal c.failures c.nstreams_done (after_open h open_fd cfg o c)
  opens goal (opened s) c k t = (t, refl, refl)
  opens goal (not_opened s) c k t = (t, refl, refl)
  opens goal already_open c k t = absurd (k refl)

  with_fd-opens : (o : Option ℕ) (s : Stream) (dir : Bytes) → with_fd open_fd dir o s ≢ already_open
  with_fd-opens none s dir = λ e. cc
  with_fd-opens (some n) s dir = λ e. cc

  with_name-opens :
      (o : Option Bytes) (s : Stream) (dir : Bytes) → with_name open_fd dir o s ≢ already_open
  with_name-opens none s dir = λ e. cc
  with_name-opens (some n) s dir = with_fd-opens (open_fd n) s dir

  new-opens :
      (dir : Bytes) (req : Request) (id : ℕ)
      → download_to h open_fd cfg dir (new_stream req id) ≢ already_open
  unfolding open_file
  new-opens [] req id = λ e. cc
  new-opens (b ∷ dir) req id =
      with_name-opens (name_of (b ∷ dir) (base_name req.path)) (new_stream req id) (b ∷ dir)

  submitted-Attempted :
      (goal : ℕ) (r : Bool × State) (req : Request) (id : ℕ) (c : Client State)
      → request_at cfg.requests c.nstreams_done ≡ some req
      → Ready c
      → Attempted goal c.failures c.nstreams_done (
          if_submitted h open_fd cfg
            (after_submit h open_fd cfg r (new_stream req id) c)
            (new_stream req id))
  submitted-Attempted goal (false, s) req id c e k =
      refuses goal submit_failed (record c { http = s }) k
  submitted-Attempted goal (true, s) req id c e (t, l) =
      opens goal (download_to h open_fd cfg cfg.download (new_stream req id))
        (after_submit h open_fd cfg (true, s) (new_stream req id) c).1
        (new-opens cfg.download req id) (next_turn c req [] 0 e t)

  serve-Attempted :
      (goal : ℕ) (o : Option Request) (id : ℕ) (c : Client State)
      → request_at cfg.requests c.nstreams_done ≡ o
      → Ready c
      → Attempted goal c.failures c.nstreams_done (serve h open_fd cfg o id c)
  unfolding submit_http_request
  serve-Attempted goal none id c e k = no_request cfg.requests c.nstreams_done e
  serve-Attempted goal (some req) id c e k =
      submitted-Attempted goal
        (submit_request id (request_headers cfg req) (has_data cfg.fd) c.http) req id c e k

  open_next-Attempted :
      (goal : ℕ) (o : Opening × State) (c : Client State)
      → Ready c
      → Attempted goal c.failures c.nstreams_done (open_next h open_fd cfg o c)
  open_next-Attempted goal (stream_id id, s) c k =
      serve-Attempted goal (request_at cfg.requests c.nstreams_done) id (record c { http = s }) refl
        k
  open_next-Attempted goal (id_blocked, s) c k = refuses goal open_blocked (record c { http = s }) k
  open_next-Attempted goal (open_error, s) c k = refl

  go_on-Served :
      (goal : ℕ) (before : List Failure) (next : Client State → Outcome State) (n : ℕ)
      (a : Attempt State)
      → ((c : Client State)
          → InTurn c
          → c.nstreams_done ≡ n + 1
          → c.failures ≡ before
          → Served goal before (next c))
      → Attempted goal before n a
      → Served goal before (go_on h open_fd cfg next a)
  go_on-Served goal before next n (made c) k (t, e, f) =
      k (count_one h open_fd cfg c) t (ap (λ m. m + 1) e) f
  go_on-Served goal before next n (left r) k a = a

  open_streams-Served :
      (rounds : ℕ) (c : Client State)
      → InTurn c
      → c.nstreams_done + rounds ≡ cfg.nstreams
      → Served cfg.nstreams c.failures (open_streams h open_fd cfg rounds c)
  unfolding open_streams
  open_streams-Served zero c t l = ((t, omega arith), inl (omega arith, refl))
  open_streams-Served (suc rounds) c t l =
      go_on-Served cfg.nstreams c.failures (open_streams h open_fd cfg rounds) c.nstreams_done
        (open_next h open_fd cfg (open_bidi_stream c.http) c)
        (λ d u e f.
          subst (λ b. Served cfg.nstreams b (open_streams h open_fd cfg rounds d)) f
            (open_streams-Served rounds d u (omega arith)))
        (open_next-Attempted cfg.nstreams (open_bidi_stream c.http) c (t, omega arith))

  extends :
      (c : Client State)
      → Within c
      → Served (all_streams c) c.failures (on_extend_max_streams h open_fd cfg c)
  unfolding on_extend_max_streams
  extends c (t, l) =
      let opened_all = open_streams-Served (cfg.nstreams - c.nstreams_done) c t (omega arith) in
      by_test c.delayed opened_all
    where
      by_test :
          (b : Bool)
          → Served cfg.nstreams c.failures
              (open_streams h open_fd cfg (cfg.nstreams - c.nstreams_done) c)
          → Served (if b then c.nstreams_done else cfg.nstreams) c.failures (
              if b
              then returns c
              else open_streams h open_fd cfg (cfg.nstreams - c.nstreams_done) c)
      by_test true a = ((t, l), inl (refl, refl))
      by_test false a = a

  set_up-Attempted :
      (goal : ℕ) (r : Bool × State) (id : ℕ) (c : Client State)
      → Ready c
      → Attempted goal c.failures c.nstreams_done (if_set_up h open_fd cfg r id c)
  set_up-Attempted goal (false, s) id c k = refuses goal setup_failed (record c { http = s }) k
  set_up-Attempted goal (true, s) id c k =
      serve-Attempted goal (request_at cfg.requests c.nstreams_done) id (record c { http = s }) refl
        k

  open_first-Attempted :
      (goal : ℕ) (o : Opening × State) (c : Client State)
      → Ready c
      → Attempted goal c.failures c.nstreams_done (open_first h open_fd cfg o c)
  open_first-Attempted goal (stream_id id, s) c k =
      set_up-Attempted goal (setup_httpconn s) id (record c { http = s }) k
  open_first-Attempted goal (id_blocked, s) c k =
      refuses goal open_blocked (record c { http = s }) k
  open_first-Attempted goal (open_error, s) c k = refuses goal open_failed (record c { http = s }) k

  counted-Served :
      (n : ℕ) (before : List Failure) (a : Attempt State)
      → n < cfg.nstreams
      → Attempted (n + 1) before n a
      → Served (n + 1) before (go_on h open_fd cfg returns a)
  counted-Served n before a l k =
      go_on-Served (n + 1) before returns n a (λ c t e f. ((t, omega arith), inl (e, f))) k

  makes_early :
      (c : Client State)
      → Within c
      → Served (one_stream c) c.failures (make_stream_early h open_fd cfg c)
  unfolding make_stream_early
  makes_early c (t, l) = elim (Bool-cases (ltb c.nstreams_done cfg.nstreams)) [
    | inl e ↦
        let m : c.nstreams_done < cfg.nstreams = ltb→lt c.nstreams_done cfg.nstreams e in
        rw e (
          counted-Served c.nstreams_done c.failures
            (open_first h open_fd cfg (open_bidi_stream c.http) c) m
            (open_first-Attempted (c.nstreams_done + 1) (open_bidi_stream c.http) c (t, m)))
    | inr e ↦ rw e ((t, l), inl (refl, refl))
  ]

-- The streams that `make_stream_early` and `on_extend_max_streams` open carry the requests of the
-- command line in turn, again from the first when more streams are asked for than there are requests,
-- and no more streams are counted than asked for, however many were opened before. When no call of
-- ngtcp2 or nghttp3 fails during the run, `make_stream_early` opens one more stream, if one is left, and
-- `on_extend_max_streams` all that are left, once there is no delay; else the first call that fails ends
-- the run. The program stops at an assertion only when ngtcp2 has just failed to open a stream by an
-- error other than the limit on streams, and divides by zero only without requests.
pub open-Served :
    (h : Http) (open_fd : Bytes → Option ℕ) (cfg : Config) (c : Client h.State)
    → Within h open_fd cfg c
    → Served h open_fd cfg
        (one_stream h open_fd cfg c)
        c.failures
        (make_stream_early h open_fd cfg c)
      × Served h open_fd cfg
          (all_streams h open_fd cfg c)
          c.failures
          (on_extend_max_streams h open_fd cfg c)
open-Served h open_fd cfg c k = (makes_early h open_fd cfg c k, extends h open_fd cfg c k)
