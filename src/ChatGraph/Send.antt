-- ===== src/ChatGraph/Send.antt =====
-- internal/handlers/chatbot_processor.go, sendAndSaveTextMessage and the senders beside it, and
-- logSessionMessage. A message is handed to SendOutgoingMessage, whose answer is env.send.
use trt_whats.Common.{
  ℕ, suc, Bool, true, false, not, ◌&&◌, List, [], ◌∷◌, ◌++◌, Option, none, some, if◌then◌else◌,
  nat_eq, ltb, take, length, Text, codes, lookup, ◌==◌, text_eq_on,
}
use trt_whats.Json.{Data, as_string, or_null}
use trt_whats.Strconv.Decimal.{decimal}
use trt_whats.ChatGraph.{ChatNode, Env, Run, Outgoing, text, interactive, cta_url}

-- SendOutgoingMessage; some e is an error.
unfoldable pub send_outgoing : Env → Outgoing → Run → Run × Option Text
send_outgoing env o r = (record r { sent = r.sent ++ o ∷ [] }, env.send r.sent o)

unfoldable pub log_session_message : Text → ChatNode → Run → Run
log_session_message t node r = record r { logged = r.logged ++ (t, node.id) ∷ [] }

-- s, _ := m[key].(string)
abbrev pub string_at : Text → Data → Text
string_at key m = elim (as_string (or_null (lookup key m))) [ none ↦ [] | some s ↦ s ]

-- The first loop of sendAndSaveInteractiveButtons: the reply buttons.
unfoldable pub reply_buttons : List Data → List Data
reply_buttons [] = []
reply_buttons (b ∷ bs) =
    let rest = reply_buttons bs in
    if string_at (codes "type") b == codes "url"
    then rest
    else if string_at (codes "type") b == codes "phone"
    then rest
    else b ∷ rest

-- The same loop: the title and the URL of the CTA buttons.
unfoldable pub cta_buttons : List Data → List (Text × Text)
cta_buttons [] = []
cta_buttons (b ∷ bs) =
    let rest = cta_buttons bs in
    let phone = string_at (codes "phone_number") b in
    if string_at (codes "type") b == codes "url"
    then (string_at (codes "title") b, string_at (codes "url") b) ∷ rest
    else if (string_at (codes "type") b == codes "phone") && not (phone == [])
    then (string_at (codes "title") b, codes "tel:" ++ phone) ∷ rest
    else rest

-- The loop over the reply buttons, of which there are at most ten here.
unfoldable pub whatsapp_buttons : ℕ → List Data → List (Text × Text)
whatsapp_buttons i [] = []
whatsapp_buttons i (b ∷ bs) =
    let rest = whatsapp_buttons (suc i) bs in
    let id = string_at (codes "id") b in
    let title = string_at (codes "title") b in
    if title == []
    then rest
    else (if id == [] then codes "btn_" ++ decimal (suc i) else id, title) ∷ rest

-- The loop over the CTA buttons, `first` at the first one.
unfoldable pub send_ctas : Env → Text → Bool → List (Text × Text) → Run → Run × Option Text
unfolding send_outgoing
send_ctas env body first [] r = (r, none)
send_ctas env body first ((title, url) ∷ bs) r =
    let (r1, failed) = send_outgoing env (cta_url (if first then body else title) title url) r in
    let after : Run × Option Text = elim failed [
      | some e ↦ (r1, some e)
      | none ↦ send_ctas env body false bs r1
    ] in
    let skipped = send_ctas env body false bs r in
    if not (title == []) && not (url == []) then after else skipped

unfoldable pub send_replies : Env → Text → List (Text × Text) → Run → Run × Option Text
unfolding send_outgoing
send_replies env body [] r = (r, none)
send_replies env body (b ∷ bs) r =
    let kind = if ltb 3 (length (b ∷ bs)) then codes "list" else codes "button" in
    send_outgoing env (interactive kind body (b ∷ bs)) r

-- sendAndSaveInteractiveButtons. CTA buttons beside reply buttons are ignored.
unfoldable pub send_interactive_buttons : Env → Text → List Data → Run → Run × Option Text
unfolding send_replies send_ctas reply_buttons cta_buttons whatsapp_buttons
send_interactive_buttons env body bs r =
    let replies = reply_buttons bs in
    let ctas = take 2 (cta_buttons bs) in
    if not (nat_eq (length replies) 0)
    then send_replies env body (whatsapp_buttons 0 (take 10 replies)) r
    else if not (nat_eq (length ctas) 0)
    then send_ctas env body true ctas r
    else send_outgoing env (text body) r
