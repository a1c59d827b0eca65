-- ===== src/Getfile.antt =====
-- The GETFILE protocol of FUND-120/4_ClientServerLab/gflib: what gfserver.c writes and reads, and
-- what gfclient.c writes and reads. Messages are lists of bytes; printf's output is not modelled.
pub mod Text
pub mod Request
pub mod Response
pub mod Perform
mod Tests
use cohere_technology_skillb.Prelude.{
  ℕ, zero, suc, ◌+◌, Bool, true, false, ◌&&◌, Option, none, some, List, [], ◌∷◌, ◌++◌, reverse,
  ◌==◌, ltb, if◌then◌else◌, length, drop, take, leb,
}
use Text.{starts_with, strstr, has, decimal, atoi}

abbrev pub crlf2 : List ℕ
crlf2 = 13 ∷ 10 ∷ 13 ∷ 10 ∷ []

-- "GETFILE", "GET", " /", "ERROR", "FILE_NOT_FOUND", "OK"
abbrev pub getfile : List ℕ
getfile = b'G' ∷ b'E' ∷ b'T' ∷ b'F' ∷ b'I' ∷ b'L' ∷ b'E' ∷ []

abbrev pub get : List ℕ
get = b'G' ∷ b'E' ∷ b'T' ∷ []

abbrev pub slash : List ℕ
slash = b' ' ∷ b'/' ∷ []

abbrev pub error_word : List ℕ
error_word = b'E' ∷ b'R' ∷ b'R' ∷ b'O' ∷ b'R' ∷ []

abbrev pub not_found_word : List ℕ
not_found_word =
    b'F' ∷ b'I' ∷ b'L' ∷ b'E' ∷ b'_' ∷ b'N' ∷ b'O' ∷ b'T' ∷ b'_' ∷ b'F' ∷ b'O' ∷ b'U' ∷ b'N' ∷ b'D'
    ∷ []

abbrev pub ok_word : List ℕ
ok_word = b'O' ∷ b'K' ∷ []

abbrev pub filenotfound : List ℕ
filenotfound =
    b'f' ∷ b'i' ∷ b'l' ∷ b'e' ∷ b'n' ∷ b'o' ∷ b't' ∷ b'f' ∷ b'o' ∷ b'u' ∷ b'n' ∷ b'd' ∷ []

-- gfstatus_t
pub data Status : Type 0 where
  gf_ok gf_file_not_found gf_error gf_invalid : Status

-- The header that gfs_sendheader of the server writes.
unfoldable pub header : Status → ℕ → List ℕ
unfolding decimal
header gf_ok file_len = getfile ++ (b' ' ∷ (ok_word ++ (b' ' ∷ (decimal file_len ++ crlf2))))
header gf_file_not_found file_len = getfile ++ (b' ' ∷ (not_found_word ++ crlf2))
header _ file_len = getfile ++ (b' ' ∷ (error_word ++ crlf2))

-- The path that checkHeader of the server finds in a request; the result `none` is a NULL pointer.
unfoldable pub check_header : List ℕ → Option (List ℕ)
check_header request =
    if has getfile request
      && (has get (drop 7 request) && (has crlf2 request && has slash (drop 11 request)))
    then (elim (strstr crlf2 request) [
      | none ↦ none
      | some (before, _) ↦ elim (strstr slash before) [
        | none ↦ none
        | some (_, found) ↦ some (drop 1 found)
      ]
    ])
    else some filenotfound

-- BUFSIZE of both sides
abbrev pub buf_size : ℕ
buf_size = 4096

-- What sprintf prints for a path.
abbrev pub message : List ℕ → List ℕ
message path = getfile ++ (b' ' ∷ (get ++ (b' ' ∷ (path ++ crlf2))))

-- The request that gfc_perform of the client writes; `none` where sprintf writes past its buffer.
unfoldable pub request : List ℕ → Option (List ℕ)
request path = if ltb (length (message path)) buf_size then some (message path) else none

-- The client reads the header byte by byte, the last byte first in `got`, until it ends or `room`
-- bytes have been read or the connection is closed.
pub read_header : ℕ → (got stream : List ℕ) → List ℕ × List ℕ
read_header zero got stream = (got, stream)
read_header (suc room) got [] = (got, [])
read_header (suc room) got (c ∷ stream) =
    let rest = read_header room (c ∷ got) stream in
    if starts_with (reverse crlf2) (c ∷ got) then (c ∷ got, stream) else rest

-- The status and the file length that the client takes from the header; `none` leaves the length.
pub parse_response : List ℕ → Status × Option ℕ
unfolding atoi
parse_response response =
    if has error_word response
    then (gf_error, none)
    else if has not_found_word response
    then (gf_file_not_found, none)
    else if has getfile response && has ok_word (drop 8 response)
    then (gf_ok, some (atoi (drop 11 response)))
    else (gf_invalid, none)

-- How gfc_perform ends: it returns 0 or -1, with the status and what it gave to the write function.
pub data Performed : Type 0 where
  returned_0 returned_neg1 : (status : Status) (written : List ℕ) → Performed
  fault : Performed
  out_of_fuel : Performed

-- filelen is 0 until a response sets it.
abbrev pub file_length : Option ℕ → ℕ
file_length none = 0
file_length (some n) = n

-- `arrive stream` is how many bytes a read of BUFSIZE bytes delivers of the bytes that the server
-- has sent and the client not read, `none` for -1.
module _ (arrive : List ℕ → Option ℕ) where
  -- The bytes received are those written so far. What a read delivers must fit the buffer of
  -- `filelen` bytes, and after -1 the write function gets a length that no buffer has.
  pub receive_loop : ℕ → Status → ℕ → (stream written : List ℕ) → Performed
  receive_loop zero status filelen stream written = out_of_fuel
  receive_loop (suc k) status filelen stream written =
      if ltb (length written) filelen
      then (elim (arrive stream) [
        | none ↦ fault
        | some n ↦
            let next = receive_loop k status filelen (drop n stream) (written ++ take n stream) in
            if length (take n stream) == 0
            then returned_neg1 gf_error written
            else if leb (length (take n stream)) filelen
            then next
            else fault
      ])
      else returned_0 status written

  -- With what the response says, and the bytes behind it.
  pub receive : Status × Option ℕ → List ℕ → Performed
  receive (gf_invalid, len) rest = returned_neg1 gf_invalid []
  receive (status, len) rest = receive_loop (suc (file_length len)) status (file_length len) rest []

  -- gfc_perform from the response on, with the request as gfc_create made it.
  pub gfc_perform : List ℕ → Performed
  gfc_perform stream =
      let (got, rest) = read_header 49 [] stream in receive (parse_response (reverse got)) rest
