-- ===== src/Server/Streams/Held.antt =====
-- The descriptors that the streams hold, seen as a partial map from streams to descriptors: what
-- storing a stream and destroying one does to it.
use quicsy.Prelude.{
  ℕ, ◌≡◌, refl, sym, subst, ◌∙◌, ap, arith, Bool, true, false, Option, none, some, List, ◌∷◌, ◌==◌,
  ==_iff, Bool-cases, inl, inr, if◌then◌else◌,
}
use quicsy.Server.Response.{Stream, Call, unmapped, Work}
use quicsy.Server.Response.Files.{is_open, Takes, none_taken, taken}
use quicsy.Server.Streams.{Streams, put, store, close_fd, destroy}

abbrev pub Holders : Type 0
Holders = ℕ → Option ℕ

-- The open descriptors are those that are held, each by one holder.
pub record Owns (at : Holders) (open_at : ℕ → Bool) : Type 0 where
  pub held : (i n : ℕ) → at i ≡ some n → open_at n ≡ true
  pub owned : (n : ℕ) → open_at n ≡ true → (i : ℕ) × (at i ≡ some n)
  pub unique : (i j n : ℕ) → at i ≡ some n → at j ≡ some n → i ≡ j

pub same-Owns :
    {at bt : Holders} {p q : ℕ → Bool}
    → ((i : ℕ) → bt i ≡ at i)
    → ((n : ℕ) → q n ≡ p n)
    → Owns at p
    → Owns bt q
same-Owns a b o = record {
  held = λ i n e. b n ∙ o.held i n (sym (a i) ∙ e);
  owned = λ n e. let r = o.owned n (sym (b n) ∙ e) in (r.0, a r.0 ∙ r.1);
  unique = λ i j n e f. o.unique i j n (sym (a i) ∙ e) (sym (a j) ∙ f);
}

-- A holder of nothing takes a descriptor that is not open.
pub take-Owns :
    {at : Holders} {p : ℕ → Bool} (i n : ℕ)
    → at i ≡ none
    → p n ≡ false
    → Owns at p
    → Owns (λ j. if j == i then some n else at j) (λ m. if m == n then true else p m)
take-Owns i n free shut o = record {
  held = λ j m e. ground (arith, o.held j m);
  owned = λ m e. elim (Bool-cases (m == n)) [
    | inl f ↦ (i, ground (arith, f))
    | inr f ↦
        let r = o.owned m (ground (arith, f, e)) in
        (
          r.0,
          elim (Bool-cases (r.0 == i)) [
            | inl g ↦ absurd (cc (r.1, free, (==_iff r.0 i).0 g))
            | inr g ↦ rw g r.1
          ],
        )
  ];
  unique = λ j k m e f. ground (arith, o.unique j k m, o.held j m, o.held k m);
}

-- A holder gives up what it has, which is closed.
pub give-Owns :
    {at : Holders} {p : ℕ → Bool} (i n : ℕ)
    → at i ≡ some n
    → Owns at p
    → Owns (λ j. if j == i then none else at j) (λ m. if m == n then false else p m)
give-Owns i n has o = record {
  held = λ j m e. ground (arith, o.held j m, o.unique i j n has);
  owned = λ m e.
      let r = o.owned m (ground (arith, e)) in
      (
        r.0,
        elim (Bool-cases (r.0 == i)) [ inl g ↦ ground (arith, g, r.1, has, e) | inr g ↦ rw g r.1 ],
      );
  unique = λ j k m e f. ground (arith, o.unique j k m);
}

abbrev pub fd_of : Option Stream → Option ℕ
fd_of none = none
fd_of (some s) = s.fd

abbrev pub fd_at : (ℕ → Option Stream) → Holders
fd_at m i = fd_of (m i)

abbrev pub IdOk : ℕ → Option Stream → Type 0
IdOk i none = Unit
IdOk i (some s) = s.stream_id ≡ i

-- Each stream stands under its identifier, and the streams own the open descriptors.
pub record IsHeld (h : Streams) : Type 0 where
  pub keys : (i : ℕ) → IdOk i (h.streams i)
  pub owns : Owns (fd_at h.streams) (λ n. is_open n h.calls)

put-ids :
    (id : ℕ) (o : Option Stream) (m : ℕ → Option Stream)
    → IdOk id o
    → ((i : ℕ) → IdOk i (m i))
    → (i : ℕ) → IdOk i (put id o m i)
put-ids id o m new old i = elim (Bool-cases (i == id)) [
  | inl e ↦ rw e (subst (λ j. IdOk j o) (sym ((==_iff i id).0 e)) new)
  | inr e ↦ rw e (old i)
]

fd_at-put :
    (id : ℕ) (o : Option Stream) (m : ℕ → Option Stream) (i : ℕ)
    → fd_at (put id o m) i ≡ (if i == id then fd_of o else fd_at m i)
fd_at-put id o m i = elim (Bool-cases (i == id)) [ inl e ↦ rw e refl | inr e ↦ rw e refl ]

put_same :
    (id : ℕ) (at : Holders) (o : Option ℕ) (i : ℕ)
    → at id ≡ o
    → (if i == id then o else at i) ≡ at i
put_same id at o i e = elim (Bool-cases (i == id)) [
  | inl f ↦ rw f (sym (subst (λ j. at j ≡ o) (sym ((==_iff i id).0 f)) e))
  | inr f ↦ rw f refl
]

-- A stream comes into the map with the descriptor that was held under its identifier.
pub same-IsHeld :
    (id : ℕ) (w : Work) (h : Streams)
    → w.stream.stream_id ≡ id
    → fd_of (h.streams id) ≡ w.stream.fd
    → ((n : ℕ) → is_open n w.calls ≡ is_open n h.calls)
    → IsHeld h
    → IsHeld (store id w h)
same-IsHeld id w h same_id same_fd files held = record {
  keys = put-ids id (some w.stream) h.streams same_id held.keys;
  owns =
      same-Owns
        (λ i.
          fd_at-put id (some w.stream) h.streams i
          ∙ put_same id (fd_at h.streams) w.stream.fd i same_fd)
        files held.owns;
}

-- A stream that held nothing comes back with what it has taken.
pub store-IsHeld :
    (id : ℕ) (w : Work) (h : Streams)
    → w.stream.stream_id ≡ id
    → fd_of (h.streams id) ≡ none
    → Takes h.calls w
    → IsHeld h
    → IsHeld (store id w h)
store-IsHeld id w h same_id free (none_taken e files) held =
    same-IsHeld id w h same_id (free ∙ sym e) files held
store-IsHeld id w h same_id free (taken n e shut files) held = record {
  keys = put-ids id (some w.stream) h.streams same_id held.keys;
  owns =
      same-Owns
        (λ i.
          fd_at-put id (some w.stream) h.streams i
          ∙ ap (λ o. if i == id then o else fd_at h.streams i) e)
        files (take-Owns id n free shut held.owns);
}

closed-Owns :
    (id : ℕ) (o : Option ℕ) (mmapped : Bool) (len : ℕ) (calls : List Call) (at : Holders)
    → at id ≡ o
    → Owns at (λ n. is_open n calls)
    → Owns
        (λ i. if i == id then none else at i)
        (λ n. is_open n (close_fd o (if mmapped then unmapped len ∷ calls else calls)))
closed-Owns id none true len calls at e o = same-Owns (λ i. put_same id at none i e) (λ n. refl) o
closed-Owns id none false len calls at e o = same-Owns (λ i. put_same id at none i e) (λ n. refl) o
closed-Owns id (some fd) true len calls at e o =
    same-Owns (λ i. refl) (λ n. refl) (give-Owns id fd e o)
closed-Owns id (some fd) false len calls at e o =
    same-Owns (λ i. refl) (λ n. refl) (give-Owns id fd e o)

-- A stream that leaves the map closes what it held.
pub erase-IsHeld :
    (id : ℕ) (s : Stream) (h : Streams)
    → h.streams id ≡ some s
    → IsHeld h
    → IsHeld (record h { streams = put id none h.streams; calls = destroy s h.calls })
unfolding destroy
erase-IsHeld id s h e held = record {
  keys = put-ids id none h.streams tt held.keys;
  owns =
      same-Owns (fd_at-put id none h.streams) (λ n. refl)
        (closed-Owns id s.fd s.mmapped s.datalen h.calls (fd_at h.streams) (ap fd_of e) held.owns);
}
