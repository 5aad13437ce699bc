-- ===== src/Server/Conn/Traffic.antt =====
-- What `write_streams` gives to `sendmsg`: the packets that ngtcp2 writes, each once, in order, to its address.
use quicsy.Prelude.{
  ℕ, ◌≡◌, ◌≤◌, ◌⊎◌, refl, arith, Bytes, Option, List, [], ◌∷◌, ◌++◌, inl, inr, length,
}
use quicsy.Server.Conn.{
  Quic, StreamChunk, Wrote, packet, data_blocked, shut_wr, write_more, write_error, Datagram,
}
use quicsy.Server.Conn.Written.{Fits}

-- A packet with its address.
abbrev pub Addressed : Type 0
Addressed = Bytes × Bytes

-- Packets of `n` bytes each, joined; the list has the latest first.
pub data Full (n : ℕ) (remote : Bytes) : Bytes → List Addressed → Type 0 where
  no_packet : Full n remote [] []
  one_more :
      {g h : Bytes} {ps : List Addressed} (b : ℕ) (s : Bytes)
      → Full n remote g ps
      → length (b ∷ s) ≡ n
      → h ≡ g ++ (b ∷ s)
      → Full n remote h ((remote, b ∷ s) ∷ ps)

-- How the kernel divides a payload: segments of `n` bytes, and a last one of at most `n`.
pub data Segments (n : ℕ) (remote : Bytes) : Bytes → List Addressed → Type 0 where
  segments :
      {g h : Bytes} {ps : List Addressed} (b : ℕ) (s : Bytes)
      → Full n remote g ps
      → length (b ∷ s) ≤ n
      → h ≡ g ++ (b ∷ s)
      → Segments n remote h ((remote, b ∷ s) ∷ ps)

-- The packets that a call of `sendmsg` hands to the kernel.
pub data Handed (d : Datagram) : List Addressed → Type 0 where
  whole :
      {ps : List Addressed} → d.gso_size ≡ 0 → ps ≡ (d.path.remote, d.payload) ∷ [] → Handed d ps
  divided : {ps : List Addressed} → Segments d.gso_size d.path.remote d.payload ps → Handed d ps

-- From the datagrams `ds` and the packets `ps` on, more datagrams carry more packets, in order.
pub data Carried (ds : List Datagram) (ps : List Addressed)
    : List Datagram → List Addressed → Type 0 where
  nothing : Carried ds ps ds ps
  more :
      {es : List Datagram} {qs rs : List Addressed} (d : Datagram) {ts : List Addressed}
      → Carried ds ps es qs
      → Handed d rs
      → ts ≡ rs ++ qs
      → Carried ds ps (d ∷ es) ts

-- The packets that ngtcp2 has written so far.
abbrev pub Records : {S : Type 0} → (S → List Addressed) → Wrote → S → S → Type 0
Records packets (packet [] n path) s t = packets t ≡ packets s
Records packets (packet (b ∷ p) n path) s t = packets t ≡ (path.remote, b ∷ p) ∷ packets s
Records packets data_blocked s t = packets t ≡ packets s
Records packets shut_wr s t = packets t ≡ packets s
Records packets (write_more n) s t = packets t ≡ packets s
Records packets (write_error e) s t = packets t ≡ packets s

-- A log of the packets, which only `ngtcp2_conn_writev_stream` adds to here.
pub record Logged (q : Quic) (max_pktlen : ℕ) : Type 0 where
  pub packets : q.State → List Addressed
  pub fits :
      (chunk : StreamChunk) (now : ℕ) (s : q.State) → Fits max_pktlen (q.writev chunk now s).0
  pub writes :
      (chunk : StreamChunk) (now : ℕ) (s : q.State)
      → Records packets (q.writev chunk now s).0 s (q.writev chunk now s).1
  pub reads : (s : q.State) → packets (q.http_writev s).2 ≡ packets s
  pub blocks : (id : Option ℕ) (s : q.State) → packets (q.block_stream id s).1 ≡ packets s
  pub offsets :
      (id : Option ℕ) (n : ℕ) (s : q.State) → packets (q.add_write_offset id n s).1 ≡ packets s

pub full-cases :
    {n : ℕ} {remote : Bytes} (g : Bytes) {ps : List Addressed}
    → Full n remote g ps
    → ((g ≡ []) × (ps ≡ [])) ⊎ Segments n remote g ps
full-cases g no_packet = inl (refl, refl)
full-cases g (one_more b s f e h) = inr (segments b s f (omega (arith, e)) h)
