-- ===== src/Handler/Serve.antt =====
-- handler_get and one round of gfserver_serve, whole.
use cohere_technology_skillb.Prelude.{
  ℕ, zero, suc, ◌-◌, ◌≤◌, ==-ne, take, ◌≡◌, ◌≢◌, refl, ap, ◌∙◌, true, false, Option, some, List, [],
  ◌∷◌, ◌++◌, arith, length, ◌⊎◌, inl, inr, get_elem?-lt,
}
use mathlib.Core.List.{append_assoc}
use cohere_technology_skillb.Queue.Strings.{c_string}
use cohere_technology_skillb.Content.{
  Item, item, Offsets, Lookup, found, missing, rewind, content_get,
}
use cohere_technology_skillb.Content.Search.{IsSorted, Answers, content_get-Answers}
use cohere_technology_skillb.Content.Load.{Occurs}
use cohere_technology_skillb.Getfile.{
  Status, gf_ok, gf_file_not_found, buf_size, crlf2, get, getfile, message, check_header, header,
  request,
}
use cohere_technology_skillb.Getfile.Text.{Avoids, Avoids-append}
use cohere_technology_skillb.Getfile.Request.{check_header-message, request-some}
use cohere_technology_skillb.Handler.{
  Served, returned, seek_end, gfs_sendheader, handler_get, serve,
}
use cohere_technology_skillb.Handler.Chunks.{Reads, Accepts, gfs_send-Accepts, send_loop-drop}

take-all : (n : ℕ) (s : List ℕ) → length s ≤ n → take n s ≡ s
take-all zero [] le = refl
take-all zero (c ∷ s) le = absurd (omega (arith, le))
take-all (suc n) [] le = refl
take-all (suc n) (c ∷ s) le = ap (λ t. c ∷ t) (take-all n s (omega (arith, le)))

c_string-Avoids : (s : List ℕ) → Avoids 0 s → c_string s ≡ s
unfolding c_string
c_string-Avoids [] a = refl
c_string-Avoids (c ∷ s) a = simp (==-ne c 0 a.0, c_string-Avoids s a.1)

-- A read that delivers a whole request gives the server its message.
received :
    (s m : List ℕ)
    → Avoids 0 s
    → request (b'/' ∷ s) ≡ some m
    → c_string (take (buf_size - 1) (take (length m) m)) ≡ message (b'/' ∷ s)
received s m a e =
    let (same, fits) = request-some (b'/' ∷ s) m e in
    let whole = take-all (length m) m (omega arith) in
    let all = take-all (buf_size - 1) m (omega (arith, fits)) in
    let line : List ℕ = getfile ++ (b' ' ∷ (get ++ (b' ' ∷ b'/' ∷ []))) in
    let no_nul : Avoids 0 (message (b'/' ∷ s)) =
      Avoids-append 0 line (s ++ crlf2) (omega arith) (Avoids-append 0 s crlf2 a (omega arith)) in
    ap (λ t. c_string (take (buf_size - 1) t)) whole
    ∙ (ap c_string all ∙ (ap c_string same ∙ c_string-Avoids (message (b'/' ∷ s)) no_nul))

module _ (pread : ℕ → ℕ → ℕ → Option (List ℕ)) (write : List ℕ → List ℕ → Option ℕ)
    (contents : ℕ → List ℕ) (items : List Item) where
  -- What a client is sent that asks for a file, and for a key that is missing.
  abbrev pub ok_message : ℕ → List ℕ
  ok_message fd = header gf_ok (length (contents fd)) ++ contents fd

  gfs_sendheader-Accepts :
      (sent : List ℕ) (status : Status) (n : ℕ)
      → Accepts write
      → gfs_sendheader write sent status n
        ≡ (some (length (header status n)), sent ++ header status n)
  unfolding gfs_sendheader
  gfs_sendheader-Accepts sent status n accepts = gfs_send-Accepts accepts sent (header status n)

  handler_get-found :
      (path sent : List ℕ) (o o' : Offsets) (fd : ℕ)
      → Accepts write
      → Reads pread fd (contents fd)
      → content_get items path o ≡ found fd o'
      → handler_get pread write contents items path sent o
        ≡ returned
            (some (length (contents fd)))
            (sent ++ ok_message fd)
            (seek_end fd (length (contents fd)) o')
            false
  unfolding handler_get
  handler_get-found path sent o o' fd accepts reads e =
      let n : ℕ = length (contents fd) in
      let head = gfs_sendheader-Accepts sent gf_ok n accepts in
      let body =
        send_loop-drop accepts pread (suc n) fd (contents fd) 0 (sent ++ header gf_ok n)
          (seek_end fd n o') reads (omega arith) (omega arith) in
      let joined = append_assoc sent (header gf_ok n) (contents fd) in
      rw (e, handler_get)
        (rw head (body ∙ ap (λ t. returned (some n) t (seek_end fd n o') false) joined))

  handler_get-missing :
      (path sent : List ℕ) (o o' : Offsets)
      → Accepts write
      → content_get items path o ≡ missing o'
      → handler_get pread write contents items path sent o
        ≡ returned
            (some (length (header gf_file_not_found 0)))
            (sent ++ header gf_file_not_found 0)
            o'
            false
  unfolding handler_get
  handler_get-missing path sent o o' accepts e =
      rw (e, handler_get) (rw (gfs_sendheader-Accepts sent gf_file_not_found 0 accepts))

  -- The right answer to a request for the key: if the table has it, GF_OK, the file's length and
  -- its contents, and else FILE_NOT_FOUND. The context is freed once.
  abbrev pub IsAnswer : List ℕ → Offsets → Served → Type 0
  IsAnswer key o r =
      ((fd : ℕ) × (Occurs (item key fd) items
          × (r
              ≡ returned (some (length (contents fd))) (ok_message fd)
                  (seek_end fd (length (contents fd)) (rewind fd o)) true)))
      ⊎ (((x : Item) → Occurs x items → x.key ≢ key)
          × (r
              ≡ returned (some (length (header gf_file_not_found 0))) (header gf_file_not_found 0) o
                  true))

  module _ (sorted : IsSorted items) (accepts : Accepts write)
      (reads : (fd : ℕ) → Reads pread fd (contents fd)) where
    -- With a sorted table of files that pread can read to their ends and a connection that accepts
    -- all that is written, the server answers a client's request for a path that begins with a
    -- slash and has no NUL and no carriage return, if the request fits the client's buffer of 4096
    -- bytes and the server's one read delivers all of it: if the table has the path, it sends GF_OK
    -- with the file's length and then the file's contents, and else FILE_NOT_FOUND alone; it ends
    -- within the fuel and frees the client context once.
    pub serve-request :
        (s m : List ℕ) (o : Offsets)
        → Avoids 0 s
        → Avoids 13 s
        → request (b'/' ∷ s) ≡ some m
        → IsAnswer (b'/' ∷ s) o (serve pread write contents items m (some (length m)) o)
    unfolding serve
    serve-request s m o no_nul avoids asked =
        by (content_get items key o) refl (content_get-Answers items key sorted o)
      where
        key : List ℕ
        key = b'/' ∷ s

        read : check_header (c_string (take (buf_size - 1) (take (length m) m))) ≡ some key
        read = ap check_header (received s m no_nul asked) ∙ check_header-message s avoids

        by :
            (r : Lookup)
            → content_get items key o ≡ r
            → Answers items key 0 (length items) o r
            → IsAnswer key o (serve pread write contents items m (some (length m)) o)
        by (found fd o') e (at, moved) = inl (
          fd,
          (
            at,
            rw (serve, read)
                (rw (handler_get-found key [] o o' fd accepts (reads fd) e) (rw moved)),
          ),
        )
        by (missing o') e (kept, absent) = inr (
          (λ x (i, g). absent i x (omega arith) (get_elem?-lt items i g) g),
          rw (serve, read) (rw (handler_get-missing key [] o o' accepts e) (rw kept)),
        )
        by Lookup.fault e a = absurd a
        by Lookup.out_of_fuel e a = absurd a
