-- ===== src/Console.antt =====
-- The admin console (crates/tarsk-core/src/console.rs): who may do what, and how text from outside
-- is read and shown. White space is that of ASCII. The server around it is I/O.
pub mod Compare
pub mod Access
pub mod Escaping
pub mod Basic
pub mod Forms
pub mod Reading
mod Examples
use Prim.Native.Nat.{bit_or, bit_xor}
use tarsk.Base.{
  Bool, Option, Text, [], drop, false, if◌then◌else◌, is_empty, is_space, length, ltb, nat_eq, none,
  not, some, take, text, text_eq, true, ℕ, ◌%◌, ◌&&◌, ◌*◌, ◌++◌, ◌+◌, ◌-◌, ◌/◌, ◌==◌, ◌||◌, ◌∷◌,
}
use tarsk.Base.Dict.{or_else}

pub record Request : Type 0 where
  pub method : Text
  pub path : Text
  pub authorization : Text
  pub fetch_site : Text
  pub origin : Text
  pub host : Text
  pub body : Text

pub record Guard : Type 0 where
  pub expect : Text
  pub actions : Bool

-- `rsplit_once`: the halves around the last occurrence of a pattern.
unfoldable pub rsplit_once : Text → Text → Option (Text × Text)
rsplit_once pattern_text [] = none
rsplit_once pattern_text (x ∷ xs) =
    let rest = rsplit_once pattern_text xs in
    elim rest [
      | some halves ↦ some (x ∷ halves.0, halves.1)
      | none ↦
          if take (length pattern_text) (x ∷ xs) == pattern_text
          then some ([], drop (length pattern_text) (x ∷ xs))
          else none
    ]

unfoldable pub same_origin : Request → Bool
same_origin r =
    if not (is_empty r.fetch_site)
    then r.fetch_site == text "same-origin" || r.fetch_site == text "none"
    else if not (is_empty r.origin)
    then elim (rsplit_once (text "//") r.origin) [
      | some halves ↦ halves.1 == r.host
      | none ↦ r.origin == r.host
    ]
    else true

abbrev pub trim_start : Text → Text
trim_start [] = []
trim_start (x ∷ xs) = let rest = trim_start xs in if is_space x then rest else x ∷ xs

abbrev pub trim_end : Text → Text
trim_end [] = []
trim_end (x ∷ xs) = elim (trim_end xs) [
  | [] ↦ if is_space x then [] else x ∷ []
  | y ∷ ys ↦ x ∷ y ∷ ys
]

-- The `fold` over the `zip`.
unfoldable pub differences : Text → Text → ℕ → ℕ
differences [] b acc = acc
differences (x ∷ a) [] acc = acc
differences (x ∷ a) (y ∷ b) acc = differences a b (bit_or acc (bit_xor x y))

unfoldable pub constant_time_eq : Text → Text → Bool
constant_time_eq a b = if not (length a == length b) then false else differences a b 0 == 0

unfoldable pub allows : Guard → Request → Bool
allows guarded r =
    if is_empty guarded.expect
    then true
    else constant_time_eq (trim_end (trim_start r.authorization)) guarded.expect

-- `SET`.
abbrev pub sextet : ℕ → ℕ
sextet n =
    if ltb n 26
    then b'A' + n
    else if ltb n 52
    then b'a' + (n - 26)
    else if ltb n 62
    then b'0' + (n - 52)
    else if n == 62
    then b'+'
    else b'/'

unfoldable pub base64 : Text → Text
base64 [] = []
base64 (a ∷ []) =
    let n = a * 65536 in sextet (n / 262144) ∷ sextet (n / 4096 % 64) ∷ b'=' ∷ b'=' ∷ []
base64 (a ∷ b ∷ []) =
    let n = a * 65536 + b * 256 in
    sextet (n / 262144) ∷ sextet (n / 4096 % 64) ∷ sextet (n / 64 % 64) ∷ b'=' ∷ []
base64 (a ∷ b ∷ d ∷ rest) =
    let n = a * 65536 + b * 256 + d in
    sextet (n / 262144)
    ∷ sextet (n / 4096 % 64)
    ∷ sextet (n / 64 % 64)
    ∷ sextet (n % 64)
    ∷ base64 rest

abbrev pub host_of : Text → Text
host_of addr = elim (rsplit_once (text ":") addr) [ none ↦ addr | some halves ↦ halves.0 ]

abbrev pub is_local : Text → Bool
is_local host =
    host == text "127.0.0.1"
    || host == text "localhost"
    || host == text "::1"
    || host == text "[::1]"

-- `guard`, with the two environment variables as arguments: `none` is a refusal to serve.
unfoldable pub guard : (addr : Text) → (token admin_actions : Option Text) → Option Guard
guard addr token admin_actions =
    let secret = or_else [] token in
    if not (is_local (host_of addr)) && is_empty secret
    then none
    else some (record {
      expect = if is_empty secret then [] else text "Basic " ++ base64 (text "tarsk:" ++ secret);
      actions = elim admin_actions [ none ↦ false | some v ↦ v == text "1" ];
    })

pub data Action : Type 0 where
  cancel replay purge : Action

-- What `handle` does with a request that was read.
pub data Reply : Type 0 where
  metrics_page unauthorized dashboard_page cross_site no_such_action read_only not_found : Reply
  act : Action → (form : Text) → Reply

abbrev pub on_action : Text → Text → Reply
on_action path body =
    if path == text "/cancel"
    then act cancel body
    else if path == text "/replay"
    then act replay body
    else if path == text "/purge"
    then act purge body
    else no_such_action

unfoldable pub handle : Guard → Request → Reply
handle guarded r =
    if r.path == text "/metrics"
    then metrics_page
    else if not (allows guarded r)
    then unauthorized
    else if r.method == text "GET" && r.path == text "/"
    then dashboard_page
    else if not (r.method == text "POST")
    then not_found
    else if not (same_origin r)
    then cross_site
    else if guarded.actions
    then on_action r.path r.body
    else read_only

-- The entity of a byte that has one, else the byte.
abbrev pub escaped_byte : ℕ → Text
escaped_byte x =
    if x == b'&'
    then text "&amp;"
    else if x == b'<'
    then text "&lt;"
    else if x == b'>'
    then text "&gt;"
    else if x == 34
    then text "&quot;"
    else if x == 39
    then text "&#39;"
    else x ∷ []

unfoldable pub escape : Text → Text
escape [] = []
escape (x ∷ xs) = escaped_byte x ++ escape xs
