-- ===== src/Client/Received/Saved.antt =====
-- A response is saved as it is received.
use quicsy.Prelude.{
  ℕ, ◌≡◌, ◌≢◌, refl, sym, subst, ap, ◌∙◌, Bytes, Option, none, some, List, [], ◌∷◌, ◌++◌,
  append_assoc, append-nil, ◌==◌, ==_iff, Bool-cases, inl, inr, if◌then◌else◌, length, take,
  take-length,
}
use quicsy.Client.Download.{Stream}
use quicsy.Client.Received.{
  Session, find_stream, http_consume, write_at, write_found, http_write_data, http_recv_data,
}

-- The calls of `http_recv_data`, each with its stream and the data.
abbrev pub Receptions : Type 0
Receptions = List (ℕ × Bytes)

unfoldable pub receive_all : (ℕ → Bytes → ℕ) → Receptions → Session → Session
unfolding http_recv_data
receive_all accepts [] s = s
receive_all accepts ((id, contents) ∷ rs) s =
    receive_all accepts rs (http_recv_data accepts id contents s)

-- The data of one stream, in order.
abbrev pub data_for : ℕ → Receptions → Bytes
data_for id [] = []
data_for id ((k, contents) ∷ rs) = (if k == id then contents else []) ++ data_for id rs

-- The stream `id` writes to `fd`.
abbrev pub WritesTo : List Stream → ℕ → ℕ → Type 0
WritesTo ss id fd = (stream : Stream) × (find_stream id ss ≡ some stream) × (stream.fd ≡ some fd)

-- No two streams write to one descriptor.
abbrev pub AreApart : List Stream → Type 0
AreApart ss = (i j fd : ℕ) → WritesTo ss i fd → WritesTo ss j fd → i ≡ j

-- The share of `my` in one reception.
abbrev pub share : ℕ → ℕ → Bytes → Bytes
share my id contents = if id == my then contents else []

module _ (accepts : ℕ → Bytes → ℕ) (whole : (n : ℕ) (b : Bytes) → accepts n b ≡ length b) where
  takes_whole : (n : ℕ) (b : Bytes) → take (accepts n b) b ≡ b
  takes_whole n b = rw (whole n b) (take-length b)

  fd_keeps :
      (o : Option ℕ) (contents : Bytes) (s : Session)
      → (write_at accepts o contents s).streams ≡ s.streams
  fd_keeps none contents s = refl
  fd_keeps (some fd) contents s = refl

  found_keeps :
      (o : Option Stream) (contents : Bytes) (s : Session)
      → (write_found accepts o contents s).streams ≡ s.streams
  found_keeps none contents s = refl
  found_keeps (some stream) contents s = fd_keeps stream.fd contents s

  http_recv_data-streams :
      (id : ℕ) (contents : Bytes) (s : Session)
      → (http_recv_data accepts id contents s).streams ≡ s.streams
  unfolding http_recv_data http_write_data http_consume
  http_recv_data-streams id contents s =
      found_keeps (find_stream id s.streams) contents (http_consume id (length contents) s)

  module _ (s : Session) (my fd : ℕ) (mine : WritesTo s.streams my fd)
      (apart : AreApart s.streams) where
    nothing_for :
        (id : ℕ) (contents : Bytes) → id ≢ my → s.files fd ≡ s.files fd ++ share my id contents
    nothing_for id contents k = elim (Bool-cases (id == my)) [
      | inl e ↦ absurd (k ((==_iff id my).0 e))
      | inr e ↦ rw e (sym (append-nil (s.files fd)))
    ]

    all_for :
        (id : ℕ) (contents : Bytes)
        → id ≡ my
        → s.files fd ++ contents ≡ s.files fd ++ share my id contents
    all_for id contents k = rw ((==_iff id my).1 k) refl

    my_fd :
        (id : ℕ) (stream : Stream)
        → id ≡ my
        → find_stream id s.streams ≡ some stream
        → stream.fd ≡ some fd
    my_fd id stream k f = cc (k, f, mine.1, mine.2)

    fd_shares :
        (id : ℕ) (contents : Bytes) (stream : Stream) (o : Option ℕ)
        → find_stream id s.streams ≡ some stream
        → stream.fd ≡ o
        → (write_at accepts o contents (http_consume id (length contents) s)).files fd
          ≡ s.files fd ++ share my id contents
    unfolding http_consume
    fd_shares id contents stream none f e =
        nothing_for id contents (λ k. absurd (cc (e, my_fd id stream k f)))
    fd_shares id contents stream (some g) f e = elim (Bool-cases (fd == g)) [
      | inl h ↦ rw h (
          ap (λ b. s.files fd ++ b) (takes_whole s.writes contents)
          ∙ all_for id contents
              (apart id my fd (stream, f, e ∙ ap some (sym ((==_iff fd g).0 h))) mine))
      | inr h ↦ rw h (
          nothing_for id contents
            (λ k. absurd (cc ((==_iff fd g).1 (cc (e, my_fd id stream k f)), h))))
    ]

    found_shares :
        (id : ℕ) (contents : Bytes) (o : Option Stream)
        → find_stream id s.streams ≡ o
        → (write_found accepts o contents (http_consume id (length contents) s)).files fd
          ≡ s.files fd ++ share my id contents
    unfolding http_consume
    found_shares id contents none f = nothing_for id contents (λ k. absurd (cc (k, f, mine.1)))
    found_shares id contents (some stream) f = fd_shares id contents stream stream.fd f refl

    http_recv_data-share :
        (id : ℕ) (contents : Bytes)
        → (http_recv_data accepts id contents s).files fd ≡ s.files fd ++ share my id contents
    unfolding http_recv_data http_write_data http_consume
    http_recv_data-share id contents = found_shares id contents (find_stream id s.streams) refl

-- As long as `write` takes what it is given and no two streams write to one descriptor, the file of a
-- stream grows by the data that are received for this stream, whole, in order and without those of the
-- other streams, however the streams are interleaved.
pub receive_all-saved :
    (accepts : ℕ → Bytes → ℕ) (whole : (n : ℕ) (b : Bytes) → accepts n b ≡ length b)
    (rs : Receptions) (s : Session) (my fd : ℕ)
    → WritesTo s.streams my fd
    → AreApart s.streams
    → (receive_all accepts rs s).files fd ≡ s.files fd ++ data_for my rs
unfolding receive_all
receive_all-saved accepts whole [] s my fd mine apart = sym (append-nil (s.files fd))
receive_all-saved accepts whole ((id, contents) ∷ rs) s my fd mine apart =
    let kept = sym (http_recv_data-streams accepts whole id contents s) in
    receive_all-saved accepts whole rs (http_recv_data accepts id contents s) my fd
      (subst (λ ss. WritesTo ss my fd) kept mine) (subst AreApart kept apart)
    ∙ (ap (λ b. b ++ data_for my rs)
          (http_recv_data-share accepts whole s my fd mine apart id contents)
        ∙ append_assoc (s.files fd) (share my id contents) (data_for my rs))
