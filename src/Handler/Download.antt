-- ===== src/Handler/Download.antt =====
-- Client and server together: a request, what the server sends for it, and what the client writes.
use cohere_technology_skillb.Prelude.{
  ℕ, ◌^◌, ◌<◌, ◌≡◌, ◌≢◌, true, Option, some, List, [], ◌∷◌, length, ◌⊎◌, inl, inr,
}
use cohere_technology_skillb.Content.{Item, item, Offsets}
use cohere_technology_skillb.Content.Search.{IsSorted}
use cohere_technology_skillb.Content.Load.{Occurs}
use cohere_technology_skillb.Getfile.{
  request, gf_ok, gf_file_not_found, Performed, returned_0, gfc_perform,
}
use cohere_technology_skillb.Getfile.Text.{Avoids}
use cohere_technology_skillb.Getfile.Perform.{Arrives, gfc_perform-ok, gfc_perform-missing}
use cohere_technology_skillb.Handler.{Served, returned, serve}
use cohere_technology_skillb.Handler.Chunks.{Reads, Accepts}
use cohere_technology_skillb.Handler.Serve.{serve-request}

-- What the client is to make of a request for the key.
abbrev pub Downloads : (ℕ → List ℕ) → List Item → List ℕ → Performed → Type 0
Downloads contents items key p =
    ((fd : ℕ) × (Occurs (item key fd) items × (p ≡ returned_0 gf_ok (contents fd))))
    ⊎ (((x : Item) → Occurs x items → x.key ≢ key) × (p ≡ returned_0 gf_file_not_found []))

-- The call returned with the connection's context freed once, and the bytes that it sent meet `P`.
abbrev pub Sends : Served → (List ℕ → Type 0) → Type 0
Sends r P =
    (n : Option ℕ) × ((sent : List ℕ) × ((o : Offsets) × ((r ≡ returned n sent o true) × P sent)))

-- A client that asks for a path that begins with a slash and has no NUL and no carriage return, by
-- a request that fits its buffer of 4096 bytes and that the server's one read delivers whole, at a
-- server whose table is sorted, whose files pread can read to their ends and are shorter than
-- 2 ^ 31 bytes, over a connection that accepts all that is written and delivers what it has
-- accepted: server and client end within their fuel, the client with GF_OK and exactly the contents
-- of a file that the table gives the path, or, where the table does not have the path, with
-- GF_FILE_NOT_FOUND and no data.
pub serve-gfc_perform :
    (pread : ℕ → ℕ → ℕ → Option (List ℕ)) (write : List ℕ → List ℕ → Option ℕ)
    (arrive : List ℕ → Option ℕ) (contents : ℕ → List ℕ) (items : List Item) (s m : List ℕ)
    (o : Offsets)
    → IsSorted items
    → Accepts write
    → Arrives arrive
    → ((fd : ℕ) → Reads pread fd (contents fd) × (length (contents fd) < 2 ^ 31))
    → Avoids 0 s
    → Avoids 13 s
    → request (b'/' ∷ s) ≡ some m
    → Sends
        (serve pread write contents items m (some (length m)) o)
        (λ sent. Downloads contents items (b'/' ∷ s) (gfc_perform arrive sent))
serve-gfc_perform pread write arrive contents items s m o sorted accepts arrives files no_nul avoids
      asked =
    elim (serve-request pread write contents items sorted accepts (λ fd. (files fd).0) s m o no_nul
      avoids asked) [
        | inl (fd, (occurs, e)) ↦ (
          _,
          (
            _,
            (_, (e, inl (fd, (occurs, gfc_perform-ok arrive arrives (contents fd) (files fd).1)))),
          ),
        )
        | inr (absent, e) ↦ (_, (_, (_, (e, inr (absent, gfc_perform-missing arrive arrives)))))
      ]
