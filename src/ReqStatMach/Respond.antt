-- ===== src/ReqStatMach/Respond.antt =====
-- `respond_http` of src/ReqStatMach.h.
use simple_http_serv.Prelude.{
  ℕ, zero, suc, ◌+◌, ◌-◌, ◌/◌, ◌%◌, List, [], ◌∷◌, ◌++◌, length, take, ltb, if◌then◌else◌,
}
use simple_http_serv.Sys.{Action, writev}
use simple_http_serv.Text.{codes, cr, lf}
use simple_http_serv.ReqStatMach.State.{Buf, headerbuf_size, databuf_size, ReqStatMach}
use simple_http_serv.ReqStatMach.Buffer.{blit, slice}

-- "%d" of a number, its last digit first pushed; `rounds` bounds the digits.
digits_onto : (rounds n : ℕ) → List ℕ → List ℕ
digits_onto zero n acc = acc
digits_onto (suc rounds) n acc =
    let more = digits_onto rounds (n / 10) ((48 + n % 10) ∷ acc) in
    if ltb n 10 then (48 + n) ∷ acc else more

unfoldable pub decimal : ℕ → List ℕ
unfolding digits_onto
decimal n = digits_onto (suc n) n []

-- A character buffer and `..._used_len`.
pub record Filled : Type 0 where
  pub buf : Buf
  pub used_len : ℕ

-- `ret = snprintf(buf + used_len, size - used_len, "%s", text); used_len += ret`. At most
-- `size - used_len - 1` bytes are stored, and a NUL; the return value is the length of the text.
unfoldable pub snprintf : (size : ℕ) → Filled → List ℕ → Filled
unfolding blit
snprintf size f text = record {
  buf = blit f.buf f.used_len (take (size - f.used_len - 1) text ++ 0 ∷ []);
  used_len = f.used_len + length text;
}

abbrev pub blank : Filled
blank = record { buf = λ _. 0; used_len = 0 }

abbrev pub crlf : List ℕ
crlf = cr ∷ lf ∷ []

-- `k_status_line[STATUS_OK]` and `k_status_line[STATUS_INTERNAL_ERROR]`
abbrev pub status_ok : List ℕ
status_ok = codes "200 OK"

abbrev pub status_internal_error : List ℕ
status_internal_error = codes "500 Internal server error"

unfoldable pub data_buf : Filled
unfolding snprintf
data_buf = snprintf databuf_size blank (codes "Hello from Tom HTTP Server" ++ lf ∷ [])

unfoldable pub head_buf : (databuf_used_len : ℕ) → Filled
unfolding snprintf decimal
head_buf databuf_used_len =
    let version = snprintf headerbuf_size blank (codes "HTTP/1.1 " ++ status_ok ++ crlf) in
    let content_length =
      snprintf headerbuf_size version
        (codes "Content-Length: " ++ decimal databuf_used_len ++ crlf) in
    snprintf headerbuf_size content_length crlf

abbrev pub iov : Filled → List ℕ
iov f = slice f.buf 0 f.used_len

-- The two parts of the gather-write, header first.
unfoldable pub response : List ℕ
unfolding data_buf head_buf
response = iov (head_buf data_buf.used_len) ++ iov data_buf

unfoldable pub respond_http : ReqStatMach → List Action
respond_http m = writev m.sockfd response ∷ []
