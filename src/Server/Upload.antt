-- ===== src/Server/Upload.antt =====
-- server/server.go: the multipart form of a media send, and the type of its file.
use wavonyx.Prelude.{
  ℕ, Bool, not, ◌&&◌, ◌||◌, List, [], ◌∷◌, Option, none, some, Str, codes, cut, str_eq, is_empty,
  starts_with, trim_space, if◌then◌else◌,
}
use wavonyx.Typing.Options.{Override}

-- An error of reading the form: whether it is a `*http.MaxBytesError`, and its text.
pub record BodyError : Type 0 where
  pub is_max_bytes : Bool
  pub text : Str

-- The file part of a form: its header's name and content type, and what reading it gives.
pub record Upload : Type 0 where
  pub filename : Str
  pub content_type : Str
  pub bytes : List ℕ
  pub read_error : Option BodyError

-- A multipart form that the library has parsed, with its fields and its file part, if it has one.
pub record Form : Type 0 where
  pub to : Str
  pub caption : Str
  pub typing : Str
  pub file : Option Upload

pub data Parsed : Type 0 where
  parsed : Form → Parsed
  refused : BodyError → Parsed

-- `strings.Contains`
unfoldable pub has_infix : Str → Str → Bool
has_infix [] p = is_empty p
has_infix (c ∷ s) p = starts_with (c ∷ s) p || has_infix s p

-- `isBodyTooLarge`
unfoldable pub is_body_too_large : BodyError → Bool
unfolding has_infix
is_body_too_large e = e.is_max_bytes || has_infix e.text (codes "request body too large")

abbrev pub before_semicolon : Str → Option (Str × Str) → Str
before_semicolon s none = s
before_semicolon s (some (before, after)) = before

-- `cleanMime`
unfoldable pub clean_mime : Str → Str
clean_mime s = trim_space (before_semicolon s (cut b';' s))

-- What is asked of other code for a media send: `filepath.Ext`, `mime.TypeByExtension`,
-- `http.DetectContentType`, and `json.Unmarshal` into an override.
pub record MimeLib : Type 0 where
  pub ext : Str → Str
  pub type_by_extension : Str → Str
  pub detect_content_type : List ℕ → Str
  pub unmarshal_override : Str → Option Override

-- `detectMimetype`
unfoldable pub detect_mimetype : MimeLib → Upload → Str
unfolding clean_mime
detect_mimetype lib u =
    let ct = clean_mime u.content_type in
    if not (is_empty ct) && not (str_eq ct (codes "application/octet-stream"))
    then ct
    else (let mt = clean_mime (lib.type_by_extension (lib.ext u.filename)) in
        if not (is_empty mt) then mt else clean_mime (lib.detect_content_type u.bytes))

-- The `typing` field: absent, an override, or text that is not valid.
pub data TypingField : Type 0 where
  absent : TypingField
  given : Override → TypingField
  invalid : TypingField

abbrev pub field_of : Option Override → TypingField
field_of none = invalid
field_of (some o) = given o

unfoldable pub typing_field : MimeLib → Str → TypingField
typing_field lib tj = if is_empty tj then absent else field_of (lib.unmarshal_override tj)
