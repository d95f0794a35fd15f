-- ===== src/Header/Status.antt =====
-- status.go: the texts of the status codes, and the status line.
use fasthttp.Base.{
  ℕ, List, [], ◌∷◌, ◌++◌, Option, none, some, ◌≡◌, refl, ltb, ◌==◌, ◌||◌, if◌then◌else◌, Bytes,
  codes, pos,
}
use fasthttp.Args.Scan.{is_empty}
use fasthttp.Bytesconv.Decimal.{append_uint}
use fasthttp.Header.Names.{str_crlf}

abbrev unknown_status_code : Bytes
unknown_status_code = codes "Unknown Status Code"

abbrev status_messages : List (ℕ × Bytes)
status_messages =
    (100, codes "Continue")
    ∷ (101, codes "Switching Protocols")
    ∷ (102, codes "Processing")
    ∷ (103, codes "Early Hints")
    ∷ (200, codes "OK")
    ∷ (201, codes "Created")
    ∷ (202, codes "Accepted")
    ∷ (203, codes "Non-Authoritative Information")
    ∷ (204, codes "No Content")
    ∷ (205, codes "Reset Content")
    ∷ (206, codes "Partial Content")
    ∷ (207, codes "Multi-Status")
    ∷ (208, codes "Already Reported")
    ∷ (226, codes "IM Used")
    ∷ (300, codes "Multiple Choices")
    ∷ (301, codes "Moved Permanently")
    ∷ (302, codes "Found")
    ∷ (303, codes "See Other")
    ∷ (304, codes "Not Modified")
    ∷ (305, codes "Use Proxy")
    ∷ (307, codes "Temporary Redirect")
    ∷ (308, codes "Permanent Redirect")
    ∷ (400, codes "Bad Request")
    ∷ (401, codes "Unauthorized")
    ∷ (402, codes "Payment Required")
    ∷ (403, codes "Forbidden")
    ∷ (404, codes "Not Found")
    ∷ (405, codes "Method Not Allowed")
    ∷ (406, codes "Not Acceptable")
    ∷ (407, codes "Proxy Authentication Required")
    ∷ (408, codes "Request Timeout")
    ∷ (409, codes "Conflict")
    ∷ (410, codes "Gone")
    ∷ (411, codes "Length Required")
    ∷ (412, codes "Precondition Failed")
    ∷ (413, codes "Request Entity Too Large")
    ∷ (414, codes "Request URI Too Long")
    ∷ (415, codes "Unsupported Media Type")
    ∷ (416, codes "Requested Range Not Satisfiable")
    ∷ (417, codes "Expectation Failed")
    ∷ (418, codes "I'm a teapot")
    ∷ (421, codes "Misdirected Request")
    ∷ (422, codes "Unprocessable Entity")
    ∷ (423, codes "Locked")
    ∷ (424, codes "Failed Dependency")
    ∷ (426, codes "Upgrade Required")
    ∷ (428, codes "Precondition Required")
    ∷ (429, codes "Too Many Requests")
    ∷ (431, codes "Request Header Fields Too Large")
    ∷ (451, codes "Unavailable For Legal Reasons")
    ∷ (500, codes "Internal Server Error")
    ∷ (501, codes "Not Implemented")
    ∷ (502, codes "Bad Gateway")
    ∷ (503, codes "Service Unavailable")
    ∷ (504, codes "Gateway Timeout")
    ∷ (505, codes "HTTP Version Not Supported")
    ∷ (506, codes "Variant Also Negotiates")
    ∷ (507, codes "Insufficient Storage")
    ∷ (508, codes "Loop Detected")
    ∷ (510, codes "Not Extended")
    ∷ (511, codes "Network Authentication Required")
    ∷ []

-- The text of a code; the table has no entry without a text.
pub message_in : List (ℕ × Bytes) → ℕ → Bytes
message_in [] code = unknown_status_code
message_in ((c, text) ∷ table) code = if c == code then text else message_in table code

-- `StatusMessage`
unfoldable pub status_message : ℕ → Bytes
unfolding message_in
status_message code =
    if ltb code 100 || ltb 511 code then unknown_status_code else message_in status_messages code

-- `formatStatusLine`; `none` is the panic of AppendUint, of which there is none below 10^20.
unfoldable pub format_status_line : Bytes → Bytes → ℕ → Bytes → Option Bytes
unfolding status_message append_uint
format_status_line dst protocol code text = elim (append_uint [] (pos code)) [
  | none ↦ none
  | some digits ↦ some (
      dst
      ++ (protocol
          ++ b' '
            ∷ (digits
                ++ b' ' ∷ ((if is_empty text then status_message code else text) ++ str_crlf))))
]

status_tests :
    (format_status_line [] (codes "HTTP/1.1") 404 []
      ≡ some (codes "HTTP/1.1 404 Not Found" ++ str_crlf))
    × (status_message 418 ≡ codes "I'm a teapot")
    × (status_message 299 ≡ unknown_status_code)
unfolding format_status_line
status_tests = (refl, refl, refl)
