-- ===== src/Transfer/Bounds.antt =====
-- What is written to disk (src/transfer/filetransfer.cpp): never more than was announced, and a file
-- only takes its place once its hash was checked.
use naleystogramm_core.Prelude.{
  ℕ, ◌≡◌, inl, refl, Bool, true, false, Option, none, some, List, [], ◌∷◌, arith,
}
use naleystogramm_core.Prelude.Int.{ℤ, pos, negsuc}
use naleystogramm_core.Prelude.Text.{Text}
use naleystogramm_core.Prelude.Map.{get}
use naleystogramm_core.Transfer.Receive.{
  Incoming, OfferKey, Frame, file_offer, file_accept, file_reject, file_cancel, file_pause,
  file_chunk, file_resume_request, file_resume_ack, Env, Store, admit, on_offer,
}
use naleystogramm_core.Transfer.Frames.{
  handle_file_chunk, cancel_of, cancel_incoming, ack_of, handle_frame, handle_message, accept_offer,
  reject_offer, pause_of, pause_transfer, resume_of, resume_transfer, Event, message, accept,
  reject, cancel, pause, resume, step, run,
}
use naleystogramm_core.Transfer.Writing.{
  IsBounded, get-IsSound, erase-AllSound, put-AllSound, chunk-IsBounded,
}

module _ (env : Env) where
  admit-IsBounded :
      (from id name : Text) (size : ℕ) (hash : Text) (d : ℕ) (k : Option (Text × Text)) (s : Store)
      → IsBounded env s
      → IsBounded env (admit from id name size hash d k s)
  unfolding admit
  admit-IsBounded from id name size hash d none s v = v
  admit-IsBounded from id name size hash d (some k) s v = record {
    sound =
        put-AllSound env id _ s.incoming
          (record {
            counted = refl;
            bounded = omega arith;
            held = omega arith;
            same = inl refl;
            fresh = λ e. refl;
          })
          v.sound;
    verified = (tt, v.verified);
  }

  offer-IsBounded :
      (from id name : Text) (size : ℤ) (hash : Text) (d : ℕ) (k : OfferKey) (s : Store)
      → IsBounded env s
      → IsBounded env (on_offer env from id name size hash d k s)
  unfolding on_offer
  offer-IsBounded from id name (negsuc n) hash d k s v = v
  offer-IsBounded from id name (pos size) hash d k s v =
      admit-IsBounded from id name size hash d _ s v

  cancel-IsBounded :
      (told : Bool) (o : Option Incoming) (id : Text) (s : Store)
      → IsBounded env s
      → IsBounded env (cancel_of told o id s)
  unfolding cancel_of
  cancel-IsBounded told none id s v = v
  cancel-IsBounded told (some t) id s v = record {
    sound = ground (arith, erase-AllSound env id s.incoming v.sound);
    verified = ground (arith, v.verified);
  }

  ack-IsBounded :
      (o : Option Incoming) (id : Text) (n : ℕ) (s : Store)
      → get id s.incoming ≡ o
      → IsBounded env s
      → IsBounded env (ack_of o id n s)
  unfolding ack_of
  ack-IsBounded none id n s e v = v
  ack-IsBounded (some t) id n s e v =
      let h = get-IsSound env id s.incoming t v.sound e in
      record {
        sound =
            put-AllSound env id _ s.incoming
              (record {
                counted = h.counted;
                bounded = h.bounded;
                held = h.held;
                same = h.same;
                fresh = h.fresh;
              })
              v.sound;
        verified = v.verified;
      }

  pause-IsBounded :
      (o : Option Incoming) (id : Text) (s : Store)
      → get id s.incoming ≡ o
      → IsBounded env s
      → IsBounded env (pause_of o id s)
  unfolding pause_of
  pause-IsBounded none id s e v = v
  pause-IsBounded (some t) id s e v =
      let h = get-IsSound env id s.incoming t v.sound e in
      record {
        sound =
            put-AllSound env id _ s.incoming
              (record {
                counted = h.counted;
                bounded = h.bounded;
                held = h.held;
                same = h.same;
                fresh = h.fresh;
              })
              v.sound;
        verified = (tt, (tt, v.verified));
      }

  resume-IsBounded :
      (o : Option Incoming) (id : Text) (s : Store)
      → IsBounded env s
      → IsBounded env (resume_of o id s)
  unfolding resume_of
  resume-IsBounded none id s v = v
  resume-IsBounded (some t) id s v = record { sound = v.sound; verified = (tt, v.verified) }

  cancelled-IsBounded :
      (told : Bool) (id : Text) (s : Store)
      → IsBounded env s
      → IsBounded env (cancel_incoming told id s)
  unfolding cancel_incoming
  cancelled-IsBounded told id s v =
      let c = cancel-IsBounded told (get id s.incoming) id s v in
      record { sound = c.sound; verified = (tt, c.verified) }

  frame-IsBounded :
      (from : Text) (f : Frame) (s : Store)
      → IsBounded env s
      → IsBounded env (handle_frame env from f s)
  unfolding handle_frame handle_file_chunk
  frame-IsBounded from (file_offer id name size hash d k) s v =
      offer-IsBounded from id name size hash d k s v
  frame-IsBounded from (file_chunk id seq d tag last) s v =
      chunk-IsBounded env (get id s.incoming) id seq d tag last s refl v
  frame-IsBounded from (file_cancel id) s v = cancelled-IsBounded false id s v
  frame-IsBounded from (file_resume_ack id n) s v = ack-IsBounded (get id s.incoming) id n s refl v
  frame-IsBounded from (file_accept id) s v = v
  frame-IsBounded from (file_reject id) s v = v
  frame-IsBounded from (file_pause id) s v = v
  frame-IsBounded from (Frame.file_complete id) s v = v
  frame-IsBounded from (file_resume_request id n) s v = v

  step-IsBounded : (e : Event) (s : Store) → IsBounded env s → IsBounded env (step env e s)
  unfolding step handle_message accept_offer reject_offer pause_transfer resume_transfer
  step-IsBounded (message from f) s v = ground (arith, frame-IsBounded from f s v)
  step-IsBounded (accept from id) s v = record {
    sound = ground (arith, v.sound);
    verified = ground (arith, v.verified);
  }
  step-IsBounded (reject from id) s v = record {
    sound = erase-AllSound env id s.incoming v.sound;
    verified = (tt, v.verified);
  }
  step-IsBounded (cancel id) s v = cancelled-IsBounded true id s v
  step-IsBounded (pause id) s v = pause-IsBounded (get id s.incoming) id s refl v
  step-IsBounded (resume id) s v = resume-IsBounded (get id s.incoming) id s v

  -- Whatever a peer sends and the user calls, in any order: a temporary file holds at most the bytes that
  -- were counted, and these are at most as many as announced; what the hasher was given for a file that took
  -- its place has the announced hash and at most the announced size, and the file is just that, unless a
  -- write brought fewer bytes to the disk than it was given, in which case it is not longer than announced.
  pub run-IsBounded : (es : List Event) (s : Store) → IsBounded env s → IsBounded env (run env es s)
  unfolding run
  run-IsBounded [] s v = v
  run-IsBounded (e ∷ es) s v = run-IsBounded es (step env e s) (step-IsBounded e s v)
