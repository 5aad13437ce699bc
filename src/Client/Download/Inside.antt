-- ===== src/Client/Download/Inside.antt =====
-- A downloaded file stays in the directory for downloads.
use quicsy.Prelude.{
  ℕ, ◌≡◌, ◌≢◌, ◌↔◌, ◌⊎◌, inl, inr, refl, sym, subst, ap, ◌∙◌, arith, ==_iff, true, false, Bytes,
  codes, Option, none, some, [], ◌∷◌, ◌++◌, ◌==◌, Bool-cases,
}
use quicsy.Prelude.Assoc.{same-cases}
use quicsy.Client.Download.{
  Stream, has_slash, base_name, name_of, opened, not_opened, with_fd, with_name, open_file,
}

-- `b` is what stands behind the last slash of `path`, or the whole of it.
abbrev pub LastPart : Bytes → Bytes → Type 0
LastPart path b =
    (has_slash b ≡ false) × ((path ≡ b) ⊎ ((dir : Bytes) × (path ≡ dir ++ (b'/' ∷ b))))

-- A name of an entry of a directory, other than the directory and its parent.
abbrev pub FileName : Bytes → Type 0
FileName b = (b ≢ []) × (b ≢ codes "..") × (b ≢ codes ".")

has_slash-append : (dir b : Bytes) → has_slash (dir ++ (b'/' ∷ b)) ≡ true
unfolding has_slash
has_slash-append [] b = refl
has_slash-append (c ∷ dir) b = elim (Bool-cases (c == b'/')) [
  | inl e ↦ rw e refl
  | inr e ↦ rw e (has_slash-append dir b)
]

longer : (c : ℕ) (s b : Bytes) → has_slash s ≡ true → LastPart s b → LastPart (c ∷ s) b
longer c s b k (h, inl e) = absurd (cc (k, h, e))
longer c s b k (h, inr (dir, e)) = (h, inr (c ∷ dir, ap (λ t. c ∷ t) e))

base_name-LastPart : (path : Bytes) → LastPart path (base_name path)
unfolding base_name has_slash
base_name-LastPart [] = (refl, inl refl)
base_name-LastPart (c ∷ s) = elim (Bool-cases (has_slash s)) [
  | inl k ↦ rw k (longer c s (base_name s) k (base_name-LastPart s))
  | inr k ↦ elim (Bool-cases (c == b'/')) [
    | inl e ↦ rw k (rw e (k, inr ([], ap (λ d. d ∷ s) ((==_iff c b'/').0 e))))
    | inr e ↦ rw k (rw e (rw e k, inl refl))
  ]
]

base_name-whole : (b : Bytes) → has_slash b ≡ false → base_name b ≡ b
unfolding base_name has_slash
base_name-whole [] h = refl
base_name-whole (c ∷ s) h = elim (Bool-cases (c == b'/')) [
  | inl e ↦ absurd (ground (arith, h, e))
  | inr e ↦ let k : has_slash s ≡ false = ground (arith, h, e) in rw k (rw e refl)
]

base_name-behind : (dir b : Bytes) → has_slash b ≡ false → base_name (dir ++ (b'/' ∷ b)) ≡ b
unfolding base_name
base_name-behind [] b h = rw h refl
base_name-behind (c ∷ dir) b h = rw (has_slash-append dir b) (base_name-behind dir b h)

LastPart-base_name : (path b : Bytes) → LastPart path b → base_name path ≡ b
LastPart-base_name path b (h, inl e) = ap base_name e ∙ base_name-whole b h
LastPart-base_name path b (h, inr (dir, e)) = ap base_name e ∙ base_name-behind dir b h

-- A base name is taken or refused.
name_of-cases :
    (download b : Bytes)
    → (FileName b × (name_of download b ≡ some (download ++ (b'/' ∷ b))))
      ⊎ (¬ FileName b × (name_of download b ≡ none))
name_of-cases download [] = inr (λ h. h.0 refl, refl)
name_of-cases download (c ∷ s) = elim (same-cases (c ∷ s) (codes "..")) [
  | inl (e, k) ↦ inr (λ h. h.1 e, rw k refl)
  | inr (e, k) ↦ elim (same-cases (c ∷ s) (codes ".")) [
    | inl (e', k') ↦ inr (λ h. h.2 e', rw k (rw k' refl))
    | inr (e', k') ↦ inl ((λ x. cc, e, e'), rw k (rw k' refl))
  ]
]

module _ (open_fd : Bytes → Option ℕ) (download path : Bytes) (stream : Stream) where
  -- The stream that has the file `b` of the directory open.
  abbrev pub Downloads : Bytes → Stream → Type 0
  Downloads b s =
      LastPart path b
      × FileName b
      × ((n : ℕ) × (open_fd (download ++ (b'/' ∷ b)) ≡ some n)
          × (s ≡ record stream { fd = some n }))

  open_file-unless :
      stream.fd ≡ none
      → open_file open_fd download path stream
        ≡ with_name open_fd download (name_of download (base_name path)) stream
  unfolding open_file
  open_file-unless h = rw h refl

  with_fd-opened :
      (o : Option ℕ) (s : Stream)
      → with_fd open_fd download o stream ≡ opened s
      → (n : ℕ) × (o ≡ some n) × (s ≡ record stream { fd = some n })
  with_fd-opened none s e = absurd (cc e)
  with_fd-opened (some n) s e = (n, refl, cc e)

  with_name-opened :
      (b : Bytes) (s : Stream)
      → LastPart path b
      → with_name open_fd download (name_of download b) stream ≡ opened s
      → Downloads b s
  with_name-opened b s l e = elim (name_of-cases download b) [
    | inl (f, k) ↦ (
      l,
      f,
      with_fd-opened (open_fd (download ++ (b'/' ∷ b))) s
          (subst (λ o. with_name open_fd download o stream ≡ opened s) k e),
    )
    | inr (f, k) ↦ absurd (
        let e' : not_opened stream ≡ opened s =
          subst (λ o. with_name open_fd download o stream ≡ opened s) k e in
        cc e')
  ]

  opens-named :
      (b : Bytes) (s : Stream)
      → Downloads b s
      → with_name open_fd download (name_of download b) stream ≡ opened s
  opens-named b s (l, f, (n, o, e)) = elim (name_of-cases download b) [
    | inl (g, k) ↦ rw k (rw o (ap opened (sym e)))
    | inr (g, k) ↦ absurd (g f)
  ]

-- A stream without a file gets one exactly for the last part of the path, when that is not empty and
-- neither "." nor "..", and the file is the one of this name in the download directory: whatever
-- path the server's resource has, no other file is opened.
pub open_file-Downloads :
    (open_fd : Bytes → Option ℕ) (download path : Bytes) (stream s : Stream)
    → stream.fd ≡ none
    → (open_file open_fd download path stream ≡ opened s)
      ↔ ((b : Bytes) × Downloads open_fd download path stream b s)
open_file-Downloads open_fd download path stream s h = (
  λ e. (
    base_name path,
    with_name-opened open_fd download path stream (base_name path) s (base_name-LastPart path)
        (sym (open_file-unless open_fd download path stream h) ∙ e),
  ),
  λ d.
      open_file-unless open_fd download path stream h
      ∙ (ap (λ b. with_name open_fd download (name_of download b) stream)
            (LastPart-base_name path d.0 d.1.0)
          ∙ opens-named open_fd download path stream d.0 s d.1),
)
