-- ===== src/Console/Examples.antt =====
-- Tests of the console, and its theorems at concrete inputs.
use tarsk.Base.{All, List, Text, [], arith, refl, some, text, true, ◌++◌, ◌↔◌, ◌∷◌, ◌≡◌, ◌≢◌, ◌⊎◌}
use tarsk.Console.{
  Guard, Request, act, allows, base64, constant_time_eq, differences, escape, guard, handle,
  metrics_page, purge, rsplit_once, same_origin, unauthorized,
}
use tarsk.Base.Dict.{lookup}
use tarsk.Base.Splitting.{pieces_of, split, split_once, split_whitespace}
use tarsk.Console.Access.{guard-handle, handle-act, path_of}
use tarsk.Console.Compare.{constant_time_eq_lem}
use tarsk.Console.Escaping.{escape-All, is_plain}
use tarsk.Console.Forms.{form_body, form_encode, form_value, form_value-form_body}
use tarsk.Console.Reading.{gather, head_end, header_in, read_lines, read_request, split_once_at}

foobar : base64 (text "fooba") ≡ text "Zm9vYmE="
unfolding base64
foobar = refl

constant_time_eq_lem_example :
    (constant_time_eq (text "Basic a") (text "Basic b") ≡ true) ↔ (text "Basic a" ≡ text "Basic b")
constant_time_eq_lem_example = constant_time_eq_lem (text "Basic a") (text "Basic b")

escape-All_example : All (λ y. is_plain y ≡ true) (escape (text "<b>"))
escape-All_example = escape-All (text "<b>")

abbrev purge_post : Request
purge_post = record {
  method = text "POST";
  path = text "/purge";
  authorization = text "Basic dGFyc2s6cw==";
  fetch_site = text "same-origin";
  origin = [];
  host = text "queue";
  body = text "id=&queue=q";
}

abbrev owner : Guard
owner = record { expect = text "Basic dGFyc2s6cw=="; actions = true }

program : Unit {0}
unfolding handle allows constant_time_eq differences same_origin guard rsplit_once base64
program = tt

purged : handle owner purge_post ≡ act purge (text "id=&queue=q")
unfolding program
purged = refl

handle-act_example :
    (text "POST" ≡ text "POST")
    × (same_origin purge_post ≡ true)
    × (true ≡ true)
    × ((owner.expect ≡ []) ⊎ (text "Basic dGFyc2s6cw==" ≡ owner.expect))
    × (text "/purge" ≡ path_of purge)
    × (text "id=&queue=q" ≡ purge_post.body)
handle-act_example = handle-act owner purge_post purge (text "id=&queue=q") purged

remote : guard (text "0.0.0.0:9") (some (text "s")) (some (text "1")) ≡ some owner
unfolding program
remote = refl

guard-handle_example :
    (owner.expect ≢ [])
    × ((text "Basic dGFyc2s6cw==" ≡ owner.expect → ⊥)
        → (handle owner purge_post ≡ metrics_page) ⊎ (handle owner purge_post ≡ unauthorized))
unfolding rsplit_once
guard-handle_example =
    guard-handle (text "0.0.0.0:9") (some (text "s")) (some (text "1")) owner purge_post refl remote

abbrev cancel_bytes : Text
cancel_bytes =
    text "POST /cancel?x=1 HTTP/1.1"
    ++ 13 ∷ 10 ∷ text "Host: box:80"
    ++ 13 ∷ 10 ∷ text "SEC-Fetch-Site:  Same-Origin "
    ++ head_end
    ++ text "queue=low+one&id=a%2Fb"

cancel_request :
    read_request (λ t. t) (some cancel_bytes ∷ [])
    ≡ some (record {
      method = text "POST";
      path = text "/cancel";
      authorization = [];
      fetch_site = text "same-origin";
      origin = [];
      host = text "box:80";
      body = text "queue=low+one&id=a%2Fb";
    })
unfolding read_request read_lines gather split_once_at split split_whitespace pieces_of header_in
    split_once
cancel_request = refl

-- The form of the console's own buttons, which has the id last.
abbrev button_fields : List (Text × Text)
button_fields = (text "queue", text "low one") ∷ (text "id", text "a/b") ∷ []

form_value-form_body_example :
    form_value (λ t. t) (text "queue=low+one&id=a%2Fb") (text "id") ≡ text "a/b"
unfolding form_encode form_body lookup
form_value-form_body_example =
    form_value-form_body (λ t. t) button_fields (text "id")
      (
        (
          (refl, (refl, (refl, (refl, (refl, tt))))),
          (refl, (refl, (refl, (refl, (refl, tt))))),
          (
            omega arith,
            (
              omega arith,
              (omega arith, (omega arith, (omega arith, (omega arith, (omega arith, tt))))),
            ),
          ),
          refl,
        ),
        (
          (
            (refl, (refl, tt)),
            (refl, (refl, tt)),
            (omega arith, (omega arith, (omega arith, tt))),
            refl,
          ),
          tt,
        ),
      )
