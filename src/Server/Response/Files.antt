-- ===== src/Server/Response/Files.antt =====
-- The descriptors that the answer to a request opens and closes.
use quicsy.Prelude.{
  ℕ, ◌≡◌, refl, Bool, true, false, Bytes, codes, Option, none, some, List, [], ◌∷◌, Bool-cases, inl,
  inr, ◌==◌, ◌||◌, if◌then◌else◌, sym, subst, ◌∙◌, ==_iff,
}
use quicsy.Prelude.Assoc.{same}
use quicsy.Server.Dyn.{DynLength, assertion_fails, not_dynamic, length_of, find_dyn_length}
use quicsy.Server.Path.{resolve_path}
use quicsy.Server.Response.{
  Header, Reader, read_data, Call, opened, closed, submit_response, Work, Outside, Config,
  send_status_response, send_redirect_response, finish_response, submit, map_file, with_size,
  with_stat, with_fd, with_path, with_length, with_request, prepare, is_empty, request_of_stream,
  call, after_map, submit_trailers,
}

-- Whether a descriptor is open, after the calls of a list with the latest first.
abbrev pub is_open : ℕ → List Call → Bool
is_open fd [] = false
is_open fd (opened n ∷ calls) = if fd == n then true else is_open fd calls
is_open fd (closed n ∷ calls) = if fd == n then false else is_open fd calls
is_open fd (c ∷ calls) = is_open fd calls

-- `open` answers a descriptor that is not open.
abbrev pub IsFresh : Outside → Type 0
IsFresh out =
    (calls : List Call) (path : Bytes) (fd : ℕ)
    → out.open_read calls path ≡ some fd
    → is_open fd calls ≡ false

-- From a stream without a descriptor: it still has none, and the same ones are open, or it has a new
-- one, which alone is open besides.
pub data Takes (calls : List Call) (w : Work) : Type 0 where
  none_taken : w.stream.fd ≡ none → ((n : ℕ) → is_open n w.calls ≡ is_open n calls) → Takes calls w
  taken :
      (fd : ℕ)
      → w.stream.fd ≡ some fd
      → is_open fd calls ≡ false
      → ((n : ℕ) → is_open n w.calls ≡ (if n == fd then true else is_open n calls))
      → Takes calls w

-- The stream keeps its identifier and its descriptor, and the same descriptors are open.
pub record SameFiles (v w : Work) : Type 0 where
  pub id : w.stream.stream_id ≡ v.stream.stream_id
  pub fd : w.stream.fd ≡ v.stream.fd
  pub files : (n : ℕ) → is_open n w.calls ≡ is_open n v.calls

-- `Takes`, with the identifier.
pub record Gains (v w : Work) : Type 0 where
  pub id : w.stream.stream_id ≡ v.stream.stream_id
  pub takes : Takes v.calls w

same-Takes : (calls : List Call) (v w : Work) → Takes calls v → SameFiles v w → Takes calls w
same-Takes calls v w (none_taken e h) k = none_taken (k.fd ∙ e) (λ n. k.files n ∙ h n)
same-Takes calls v w (taken fd e fresh h) k = taken fd (k.fd ∙ e) fresh (λ n. k.files n ∙ h n)

same-Gains : (u v w : Work) → Gains u v → SameFiles v w → Gains u w
same-Gains u v w g k = record { id = k.id ∙ g.id; takes = same-Takes u.calls v w g.takes k }

unchanged : (v w : Work) → v.stream.fd ≡ none → SameFiles v w → Gains v w
unchanged v w e k = record { id = k.id; takes = none_taken (k.fd ∙ e) k.files }

abbrev with_new : ℕ → Work → Work
with_new fd w = call (opened fd) (record w { stream = record w.stream { fd = some fd } })

opened-Gains : (fd : ℕ) (w : Work) → is_open fd w.calls ≡ false → Gains w (with_new fd w)
opened-Gains fd w fresh = record { id = refl; takes = taken fd refl fresh (λ n. refl) }

closed-opened :
    (fd : ℕ) (calls : List Call)
    → is_open fd calls ≡ false
    → (n : ℕ) → is_open n (closed fd ∷ opened fd ∷ calls) ≡ is_open n calls
closed-opened fd calls fresh n = elim (Bool-cases (n == fd)) [
  | inl e ↦ rw e (subst (λ m. false ≡ is_open m calls) (sym ((==_iff n fd).0 e)) (sym fresh))
  | inr e ↦ rw e refl
]

module _ (out : Outside) (cfg : Config) where
  pub submit-SameFiles :
      (headers : List Header) (reader : Reader) (w : Work)
      → SameFiles w (submit out cfg headers reader (finish_response out cfg) w).1
  unfolding submit finish_response
  submit-SameFiles headers reader w =
      elim (Bool-cases (out.succeeds w.calls (submit_response w.stream.stream_id headers reader))) [
        | inl e ↦
            rw e
              (elim (Bool-cases (
                out.succeeds (submit_response w.stream.stream_id headers reader ∷ w.calls)
                  (submit_trailers w.stream.stream_id))) [
                    | inl f ↦ rw f (record { id = refl; fd = refl; files = λ n. refl })
                    | inr f ↦ rw f (record { id = refl; fd = refl; files = λ n. refl })
                  ])
        | inr e ↦ rw e (record { id = refl; fd = refl; files = λ n. refl })
      ]

  status-SameFiles :
      (code : ℕ) (extra : List Header) (w : Work)
      → SameFiles w (send_status_response out cfg code extra w).1
  unfolding send_status_response
  status-SameFiles code extra w =
      let k = submit-SameFiles _ read_data _ in record { id = k.id; fd = k.fd; files = k.files }

  mapped-SameFiles :
      (req_path : Bytes) (fd size : ℕ) (w : Work)
      → SameFiles w (after_map out cfg req_path size (map_file out cfg fd size w)).1
  unfolding map_file
  mapped-SameFiles req_path fd size w = elim (Bool-cases (size == 0)) [
    | inl e ↦ rw e (record { id = refl; fd = refl; files = λ n. refl })
    | inr e ↦ rw e (elim (Bool-cases (out.mmap_succeeds w.calls fd size)) [
      | inl f ↦ rw f (record { id = refl; fd = refl; files = λ n. refl })
      | inr f ↦ rw f (status-SameFiles 500 [] w)
    ])
  ]

  -- Behind `open`: the descriptor is kept by the stream, or closed again for HEAD.
  stat-Gains :
      (req_path path : Bytes) (fd : ℕ) (o : Option (Bool × ℕ)) (w : Work)
      → is_open fd w.calls ≡ false
      → Gains w
          (with_stat out cfg req_path path fd o
            (call (opened fd) (record w { stream = record w.stream { fd = some fd } }))).1
  unfolding with_stat with_size send_redirect_response
  stat-Gains req_path path fd none w fresh =
      same-Gains w (with_new fd w) _ (opened-Gains fd w fresh)
        (status-SameFiles 404 [] (with_new fd w))
  stat-Gains req_path path fd (some (true, size)) w fresh =
      elim (Bool-cases (is_empty cfg.htdocs)) [
        | inl e ↦ rw e (opened-Gains fd w fresh)
        | inr e ↦ rw e (
            same-Gains w (with_new fd w) _ (opened-Gains fd w fresh)
              (status-SameFiles 308 _ (with_new fd w)))
      ]
  stat-Gains req_path path fd (some (false, size)) w fresh =
      elim (Bool-cases (same w.stream.method (codes "HEAD"))) [
        | inl e ↦
            rw e (record { id = refl; takes = none_taken refl (closed-opened fd w.calls fresh) })
        | inr e ↦ rw e (
            same-Gains w (with_new fd w) _ (opened-Gains fd w fresh)
              (mapped-SameFiles req_path fd size (with_new fd w)))
      ]

  fd-Gains :
      (req_path path : Bytes) (o : Option ℕ) (w : Work)
      → w.stream.fd ≡ none
      → ((fd : ℕ) → o ≡ some fd → is_open fd w.calls ≡ false)
      → Gains w (with_fd out cfg req_path path o w).1
  unfolding with_fd
  fd-Gains req_path path none w e fresh = unchanged w _ e (status-SameFiles 404 [] w)
  fd-Gains req_path path (some fd) w e fresh =
      stat-Gains req_path path fd (out.fstat (opened fd ∷ w.calls) fd) w (fresh fd refl)

  path-Gains :
      (req_path path : Bytes) (w : Work)
      → IsFresh out
      → w.stream.fd ≡ none
      → Gains w (with_path out cfg req_path path w).1
  unfolding with_path
  path-Gains req_path [] w fresh e = unchanged w _ e (status-SameFiles 404 [] w)
  path-Gains req_path (c ∷ path) w fresh e =
      fd-Gains req_path (c ∷ path) (out.open_read w.calls (c ∷ path)) w e (fresh w.calls (c ∷ path))

  length-Gains :
      (req_path : Bytes) (n : DynLength) (w : Work)
      → IsFresh out
      → w.stream.fd ≡ none
      → Gains w (with_length out cfg req_path n w).1
  unfolding with_length
  length-Gains req_path assertion_fails w fresh e =
      unchanged w w e (record { id = refl; fd = refl; files = λ n. refl })
  length-Gains req_path not_dynamic w fresh e =
      path-Gains req_path (resolve_path out.realpath cfg.htdocs req_path) w fresh e
  length-Gains req_path (length_of n) w fresh e =
      unchanged w _ e (record { id = refl; fd = refl; files = λ n. refl })

  request-Gains :
      (req_path : Bytes) (w : Work)
      → IsFresh out
      → w.stream.fd ≡ none
      → Gains w (with_request out cfg req_path w).1
  unfolding with_request
  request-Gains [] w fresh e = unchanged w _ e (status-SameFiles 400 [] w)
  request-Gains (c ∷ path) w fresh e =
      length-Gains (c ∷ path) (find_dyn_length cfg.max_dyn_length (c ∷ path)) w fresh e

  -- The first half of an answer takes at most one descriptor, which the stream then holds.
  pub prepare-Gains : (w : Work) → IsFresh out → w.stream.fd ≡ none → Gains w (prepare out cfg w).1
  unfolding prepare
  prepare-Gains w fresh e = elim (Bool-cases (is_empty w.stream.uri || is_empty w.stream.method)) [
    | inl f ↦ rw f (unchanged w _ e (status-SameFiles 400 [] w))
    | inr f ↦ rw f (request-Gains (request_of_stream out cfg w.stream).path w fresh e)
  ]
