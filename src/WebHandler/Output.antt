-- ===== src/WebHandler/Output.antt =====
-- What a web handler gets and gives: `RequestInfo`, `RequestOutput` and `HandleRequestReply`, with the errors.
use oclock.Common.{ℕ, [], ◌∷◌, ◌++◌, Option, none, some}
use oclock.Common.Str.{Str, str}
use oclock.Common.Decimal.{cast_int}
use oclock.StatusReport.{append_int}
use oclock.StatusReport.Render.{concat}
use oclock.WebHandler.Html.{number}

-- The codes of `HandleRequestReply`.
pub data Reply : Type 0 where
  ok no_content internal_error not_found server_unavail : Reply

-- The header `Content-Type`, where it was set, and the body.
pub record RequestOutput : Type 0 where
  pub content_type : Option Str
  pub reply_body : Str

pub record RequestInfo : Type 0 where
  pub method : ℕ
  pub uri_path : Str
  pub request_body : Option Str

-- The path that `parseRequest` takes: `none` is a null pointer.
unfoldable pub parse_path : Option Str → Str
parse_path none = str "/"
parse_path (some []) = str "/"
parse_path (some (c ∷ cs)) = c ∷ cs

unfoldable pub parse_request : ℕ → Option Str → Option Str → RequestInfo
unfolding parse_path
parse_request method path body = record {
  method = method;
  uri_path = parse_path path;
  request_body = body;
}

abbrev pub no_output : RequestOutput
no_output = record { content_type = none; reply_body = [] }

abbrev pub body_output : Str → RequestOutput
body_output body = record { content_type = none; reply_body = body }

abbrev pub typed_output : Str → Str → RequestOutput
typed_output content_type body = record { content_type = some content_type; reply_body = body }

-- `RETURN_ERROR` at a line.
unfoldable pub error_output : ℕ → Str → RequestOutput
unfolding number
error_output line message =
    typed_output (str "text/plain")
      (concat (str "Error in " ∷ number line ∷ str ": " ∷ message ∷ []))

unfoldable pub bad_length_message : ℕ → Str
unfolding append_int cast_int number
bad_length_message n = concat (
    str "body len in post is bad (got:"
    ∷ append_int (cast_int n)
    ∷ str " max:"
    ∷ number 4096
    ∷ str ")"
    ∷ [])

-- An exception ends in `handleRequest`, which prints it.
unfoldable pub caught_output : Str → RequestOutput
caught_output what = body_output (str "Internal error: " ++ (what ++ str "\n"))
