-- ===== src/Transfer/Writing.antt =====
-- What a chunk writes to disk (src/transfer/filetransfer.cpp), and what becomes of a file that is
-- complete.
use mathlib.Core.Path.{subst}
use naleystogramm_core.Prelude.{
  zero, suc, ◌<◌, ◌⊎◌, take, length-take, dec_lt, ℕ, ◌+◌, ◌≤◌, ◌≡◌, refl, Bool, true, false, Option,
  none, some, List, [], ◌∷◌, ◌++◌, length, length-append, arith, ltb, ◌==◌, if◌then◌else◌, sym, ap,
  ◌∙◌, Bool-cases, inl, inr,
}
use naleystogramm_core.Prelude.Text.{Text, text_eq, text_eq_iff, is_empty}
use naleystogramm_core.Prelude.Map.{Map, get, put, erase}
use naleystogramm_core.Transfer.Receive.{
  Incoming, Effect, saved, Env, Store, abort, content_of, finish_of, finish_receiving, write_chunk,
  active,
}
use naleystogramm_core.Transfer.Frames.{is_stopped, take_chunk, chunk_of}

pub take-all : (n : ℕ) (x : Text) → length x ≤ n → take n x ≡ x
take-all zero [] h = refl
take-all zero (c ∷ x) h = absurd (omega arith)
take-all (suc n) [] h = refl
take-all (suc n) (c ∷ x) h = ap (λ r. c ∷ r) (take-all n x (omega arith))

take-length : (n : ℕ) (x : Text) → length (take n x) ≤ length x
take-length n x = omega (arith, length-take n x)

module _ (env : Env) where
  -- A write that brought fewer bytes to the disk than it was given.
  abbrev pub ShortWrite : Type 0
  ShortWrite =
      (id : Text) × (old : Text) × (plain : Text) × (env.written id old plain < length plain)

  -- The hasher was given what was counted, at most the announced size; the file holds no more, and
  -- the same unless a write fell short.
  pub record IsSound (t : Incoming) : Type 0 where
    pub counted : length t.hashed ≡ t.bytes_received
    pub bounded : t.bytes_received ≤ t.file_size
    pub held : length (content_of t.file) ≤ t.bytes_received
    pub same : (content_of t.file ≡ t.hashed) ⊎ ShortWrite
    pub fresh : t.file ≡ none → t.bytes_received ≡ 0

  abbrev pub AllSound : Map Incoming → Type 0
  AllSound [] = Unit
  AllSound ((k, t) ∷ m) = IsSound t × AllSound m

  pub get-IsSound :
      (k : Text) (m : Map Incoming) (t : Incoming) → AllSound m → get k m ≡ some t → IsSound t
  unfolding get
  get-IsSound k [] t h e = cc
  get-IsSound k ((j, c) ∷ m) t h e = ground (arith, get-IsSound k m t h.1)

  pub erase-AllSound : (k : Text) (m : Map Incoming) → AllSound m → AllSound (erase k m)
  unfolding erase
  erase-AllSound k [] h = tt
  erase-AllSound k ((j, t) ∷ m) h = ground (arith, erase-AllSound k m h.1)

  pub put-AllSound :
      (k : Text) (t : Incoming) (m : Map Incoming) → IsSound t → AllSound m → AllSound (put k t m)
  unfolding put
  put-AllSound k t m h v = (h, erase-AllSound k m v)

  -- What the hasher was given for a saved file has the announced hash and at most the announced size;
  -- the file is that, or a write fell short, and is no longer in any case.
  abbrev pub IsVerified : Effect → Type 0
  IsVerified (saved id t content) =
      (env.sha256 t.hashed ≡ t.expected_hash)
      × (length t.hashed ≤ t.file_size)
      × (length content ≤ t.file_size)
      × ((content ≡ t.hashed) ⊎ ShortWrite)
  IsVerified e = Unit

  abbrev pub AllVerified : List Effect → Type 0
  AllVerified [] = Unit
  AllVerified (e ∷ es) = IsVerified e × AllVerified es

  pub record IsBounded (s : Store) : Type 0 where
    pub sound : AllSound s.incoming
    pub verified : AllVerified s.trace

  abort-IsBounded : (id error : Text) (s : Store) → IsBounded s → IsBounded (abort id error s)
  unfolding abort
  abort-IsBounded id error s v = record {
    sound = erase-AllSound id s.incoming v.sound;
    verified = (tt, (tt, v.verified));
  }

  finish-IsBounded :
      (o : Option Incoming) (id : Text) (s : Store)
      → get id s.incoming ≡ o
      → IsBounded s
      → IsBounded (finish_of env o id s)
  unfolding finish_of
  finish-IsBounded none id s e v = v
  finish-IsBounded (some t) id s e v =
      elim (Bool-cases (text_eq (env.sha256 t.hashed) t.expected_hash)) [
        | inr wrong ↦ rw wrong (abort-IsBounded id _ s v)
        | inl right ↦ elim (Bool-cases (env.saves id)) [
          | inr unsaved ↦ rw (right, unsaved) (abort-IsBounded id _ s v)
          | inl moved ↦
              let h = get-IsSound id s.incoming t v.sound e in
              rw (right, moved)
                (record {
                  sound = erase-AllSound id s.incoming v.sound;
                  verified = (
                    tt,
                    (
                      tt,
                      (
                        tt,
                        (
                          (
                            (text_eq_iff _ _).0 right,
                            omega (arith, h.counted, h.bounded),
                            omega (arith, h.held, h.bounded),
                            h.same,
                          ),
                          v.verified,
                        ),
                      ),
                    ),
                  );
                })
        ]
      ]

  -- What a write leaves in the file.
  grown_same :
      (id old plain hashed : Text)
      → (old ≡ hashed) ⊎ ShortWrite
      → (old ++ take (env.written id old plain) plain ≡ hashed ++ plain) ⊎ ShortWrite
  grown_same id old plain hashed (inr short) = inr short
  grown_same id old plain hashed (inl e) = elim (dec_lt (env.written id old plain) (length plain)) [
    | yes fewer ↦ inr (id, old, plain, fewer)
    | no all ↦ inl (
        ap (λ x. old ++ x) (take-all (env.written id old plain) plain (omega arith))
        ∙ ap (λ x. x ++ plain) e)
  ]

  -- The transfer after a chunk that fits.
  grown-IsSound :
      (id : Text) (t : Incoming) (old plain : Text)
      → length t.hashed ≡ t.bytes_received
      → length old ≤ t.bytes_received
      → (old ≡ t.hashed) ⊎ ShortWrite
      → t.bytes_received + length plain ≤ t.file_size
      → IsSound (record t {
        file = some (old ++ take (env.written id old plain) plain);
        hashed = t.hashed ++ plain;
        bytes_received = t.bytes_received + length plain;
        chunks_received = t.chunks_received + 1;
      })
  grown-IsSound id t old plain c h e k = record {
    counted = omega (arith, c, length-append {A = ℕ} t.hashed plain);
    bounded = k;
    held = omega (
      arith,
      h,
      length-append {A = ℕ} old (take (env.written id old plain) plain),
      take-length (env.written id old plain) plain,
    );
    same = grown_same id old plain t.hashed e;
    fresh = λ n. cc;
  }

  write-IsBounded :
      (id plain : Text) (last : Bool) (t : Incoming) (old : Text) (s : Store)
      → length t.hashed ≡ t.bytes_received
      → length old ≤ t.bytes_received
      → (old ≡ t.hashed) ⊎ ShortWrite
      → IsBounded s
      → IsBounded (write_chunk env id plain last t old s)
  unfolding write_chunk finish_receiving
  write-IsBounded id plain last t old s c h e v = elim (Bool-cases (is_empty plain)) [
    | inl none_left ↦ rw none_left (abort-IsBounded id _ s v)
    | inr some_left ↦ elim (Bool-cases (ltb t.file_size (t.bytes_received + length plain))) [
      | inl over ↦ rw (some_left, over) (abort-IsBounded id _ s v)
      | inr fits ↦
          rw (some_left, fits)
            (finished last (record {
              sound =
                  put-AllSound id _ s.incoming (grown-IsSound id t old plain c h e (ground arith))
                    v.sound;
              verified = (tt, v.verified);
            }))
    ]
  ]
    where
      finished :
          (l : Bool) {s' : Store}
          → IsBounded s'
          → IsBounded (if l then finish_of env (get id s'.incoming) id s' else s')
      finished true {s'} w = finish-IsBounded (get id s'.incoming) id s' refl w
      finished false w = w

  take-IsBounded :
      (id plain : Text) (last : Bool) (t : Incoming) (o : Option Text) (s : Store)
      → t.file ≡ o
      → IsSound t
      → IsBounded s
      → IsBounded (take_chunk env id plain last t o s)
  unfolding take_chunk
  take-IsBounded id plain last t (some old) s e h v =
      write-IsBounded id plain last t old s h.counted
        (subst (λ f. length (content_of f) ≤ t.bytes_received) e h.held)
        (subst (λ f. (content_of f ≡ t.hashed) ⊎ ShortWrite) e h.same) v
  take-IsBounded id plain last t none s e h v = elim (Bool-cases (env.creates_temp id)) [
    | inr bad ↦
        rw bad
          (record { sound = erase-AllSound id s.incoming v.sound; verified = (tt, v.verified) })
    | inl good ↦
        let t' = record t { file = some []; hashed = []; state = active } in
        let z = h.fresh e in
        rw good (
          write-IsBounded id plain last t' [] _ (sym z) (omega arith) (inl refl) (record {
            sound =
                put-AllSound id t' s.incoming
                  (record {
                    counted = sym z;
                    bounded = h.bounded;
                    held = omega arith;
                    same = inl refl;
                    fresh = λ n. z;
                  })
                  v.sound;
            verified = (tt, v.verified);
          }))
  ]

  pub chunk-IsBounded :
      (o : Option Incoming) (id : Text) (seq : ℕ) (d tag : Text) (last : Bool) (s : Store)
      → get id s.incoming ≡ o
      → IsBounded s
      → IsBounded (chunk_of env o id seq d tag last s)
  unfolding chunk_of
  chunk-IsBounded none id seq d tag last s e v = v
  chunk-IsBounded (some t) id seq d tag last s e v = elim (Bool-cases (is_stopped t.state)) [
    | inl stopped ↦ rw stopped v
    | inr going ↦ elim (Bool-cases (seq == t.chunks_received)) [
      | inr other ↦ rw (going, other) v
      | inl next ↦
          rw (going, next)
            (take-IsBounded id _ last t t.file s refl (get-IsSound id s.incoming t v.sound e) v)
    ]
  ]
