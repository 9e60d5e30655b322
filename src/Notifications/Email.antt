-- ===== src/Notifications/Email.antt =====
-- modules/notifications/email.service.js: `sendEmail`, which delivers nothing yet. The log is left out.
use Prim.Native.String.{◌++◌}
use qpass_backend.Prelude.{String, ◌||◌, Option, some, if◌then◌else◌}
use qpass_backend.Text.{is_empty}

-- How `sendEmail` ends: with an answer that says success, with one that does not, or with a throw.
pub data Delivery : Type 0 where
  delivered : Option String → Delivery
  refused : Option String → Delivery
  thrown : String → Delivery

-- `stamp` is the text of Date.now(); a missing argument is the empty text.
unfoldable pub send_email : String → String → String → Delivery
send_email stamp to template =
    if is_empty to || is_empty template
    then thrown "Recipient (to) and content (template, html, or text) are required"
    else delivered (some ("simulated-" ++ stamp))
