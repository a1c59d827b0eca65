-- ===== src/Handler.antt =====
-- FUND-120/4_ClientServerLab/mtgf/handler.c, on gfs_send and gfs_sendheader of gflib/gfserver.c,
-- and the part of gfserver_serve that answers one connection. The bytes that have gone out on the
-- connection are a list. pread and write are parameters; printf's output is not modelled.
pub mod Chunks
pub mod Serve
pub mod Download
mod Tests
use cohere_technology_skillb.Prelude.{
  ℕ, zero, suc, ◌+◌, ◌-◌, Bool, true, false, Option, none, some, List, [], ◌∷◌, ◌++◌, ◌==◌, ltb,
  if◌then◌else◌, length, take,
}
use cohere_technology_skillb.Content.{Item, Offsets, Lookup, content_get, found, missing}
use cohere_technology_skillb.Queue.Strings.{c_string}
use cohere_technology_skillb.Getfile.{
  gf_ok, gf_file_not_found, Status, buf_size, header, check_header,
}

abbrev pub buffer_size : ℕ
buffer_size = 4096

-- How a call ends: what it returns, `none` for -1, what has been sent, the file offsets, and
-- whether the client context has been freed.
pub data Served : Type 0 where
  returned : (result : Option ℕ) (sent : List ℕ) (offsets : Offsets) (freed : Bool) → Served
  fault : Served
  out_of_fuel : Served

-- lseek(fd, 0, SEEK_END) where the file has `n` bytes.
abbrev pub seek_end : ℕ → ℕ → Offsets → Offsets
seek_end fd n o a = if a == fd then n else o a

-- write_len == read_len
abbrev pub wrote : Option ℕ → ℕ → Bool
wrote none n = false
wrote (some m) n = m == n

-- `write sent data` is how many bytes of `data` write accepts when `sent` has been sent, `none` for -1.
module _ (write : List ℕ → List ℕ → Option ℕ) where
  -- The result and the bytes sent afterwards.
  pub gfs_send : List ℕ → List ℕ → Option ℕ × List ℕ
  gfs_send sent bytes = elim (write sent bytes) [
    | none ↦ (none, sent)
    | some n ↦ (some n, sent ++ take n bytes)
  ]

  pub gfs_sendheader : List ℕ → Status → ℕ → Option ℕ × List ℕ
  gfs_sendheader sent status file_len = gfs_send sent (header status file_len)

-- gfs_abort of a context that has been freed is undefined.
abbrev gfs_abort : Served → Served
gfs_abort (returned r sent o false) = returned r sent o true
gfs_abort (returned r sent o true) = fault
gfs_abort fault = fault
gfs_abort out_of_fuel = out_of_fuel

-- `pread fd n at` is what pread reads, `none` for -1.
module _ (pread : ℕ → ℕ → ℕ → Option (List ℕ)) (write : List ℕ → List ℕ → Option ℕ) where
  pub send_loop : ℕ → (fildes file_len transferred : ℕ) → List ℕ → Offsets → Served
  send_loop zero fildes file_len transferred sent o = out_of_fuel
  send_loop (suc k) fildes file_len transferred sent o =
      if ltb transferred file_len
      then (elim (pread fildes buffer_size transferred) [
        | none ↦ returned none sent o true
        | some [] ↦ returned none sent o true
        | some (c ∷ s) ↦
            let (write_len, sent') = gfs_send write sent (c ∷ s) in
            let rest = send_loop k fildes file_len (transferred + length (c ∷ s)) sent' o in
            if wrote write_len (length (c ∷ s)) then rest else returned none sent' o true
      ])
      else returned (some transferred) sent o false

  -- `contents` are the files.
  module _ (contents : ℕ → List ℕ) where
    pub handler_get : List Item → List ℕ → List ℕ → Offsets → Served
    handler_get items path sent o = elim (content_get items path o) [
      | missing o' ↦
          let (n, sent') = gfs_sendheader write sent gf_file_not_found 0 in
          returned n sent' o' false
      | found fildes o' ↦
          let file_len = length (contents fildes) in
          let (n, sent') = gfs_sendheader write sent gf_ok file_len in
          send_loop (suc file_len) fildes file_len 0 sent' (seek_end fildes file_len o')
      | Lookup.fault ↦ fault
      | Lookup.out_of_fuel ↦ out_of_fuel
    ]

    -- One round of gfserver_serve: of the bytes that the client sends, the only read delivers
    -- `count`, and at most BUFSIZE - 1; after -1 the server ends. The request is the string up to
    -- the first NUL. A NULL path faults in the handler.
    pub serve : List Item → (incoming : List ℕ) → (count : Option ℕ) → Offsets → Served
    serve items incoming none o = returned none [] o true
    serve items incoming (some n) o =
        elim (check_header (c_string (take (buf_size - 1) (take n incoming)))) [
          | none ↦ fault
          | some path ↦ gfs_abort (handler_get items path [] o)
        ]
