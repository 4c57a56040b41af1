-- ===== src/Enquiries.antt =====
-- src/modules/enquiries: the enquiries that visitors of the public site send. Sending the alert mail
-- is an entry of `sent` where the mail server works, and its failure is dropped.
use mtd_backend.Common.{
  ℕ, String, Bool, Option, none, some, List, [], ◌∷◌, ◌++◌, truthy, present, get_or, if◌then◌else◌,
}

pub data EnquiryStatus : Type 0 where
  new contacted closed : EnquiryStatus

pub record Enquiry : Type 0 where
  pub id : String
  pub name : String
  pub firm : String
  pub email : String
  pub phone : Option String
  pub message : String
  pub source_page : Option String
  pub plan_interest : Option String
  pub status : EnquiryStatus
  pub internal_note : Option String
  pub created_at : ℕ
  pub updated_at : ℕ

pub record CreateEnquiryDto : Type 0 where
  pub name : String
  pub firm : String
  pub email : String
  pub phone : Option String
  pub message : String
  pub source_page : Option String
  pub plan_interest : Option String
  pub website : Option String

-- `sent` lists the addresses that an alert went to, with the id of its enquiry.
pub record EnquiryDb : Type 0 where
  pub enquiries : List Enquiry
  pub sent : List (String × String)

-- JavaScript's `trim` and `toLowerCase`, the configuration and the mail server.
pub record EnquiryServices : Type 0 where
  pub trim : String → String
  pub lower : String → String
  pub notify_email : Option String
  pub mail_works : String → Bool

module _ (sv : EnquiryServices) where
  -- `x?.trim() || null`
  unfoldable pub trimmed_field : Option String → Option String
  trimmed_field none = none
  trimmed_field (some text) = if truthy (sv.trim text) then some (sv.trim text) else none

  -- `get('mail.enquiryNotifyEmail') || 'info@mytaxdiary.co.uk'`
  abbrev notify_to : String
  notify_to = if present sv.notify_email then get_or sv.notify_email "" else "info@mytaxdiary.co.uk"

  abbrev pub new_enquiry : String → ℕ → CreateEnquiryDto → Enquiry
  unfolding trimmed_field
  new_enquiry id now dto = record {
    id = id;
    name = sv.trim dto.name;
    firm = sv.trim dto.firm;
    email = sv.lower (sv.trim dto.email);
    phone = trimmed_field dto.phone;
    message = sv.trim dto.message;
    source_page = trimmed_field dto.source_page;
    plan_interest = trimmed_field dto.plan_interest;
    status = EnquiryStatus.new;
    internal_note = none;
    created_at = now;
    updated_at = now;
  }

  -- A filled honeypot field is answered alike, with nothing stored. The answer is always the same.
  unfoldable pub create : String → ℕ → CreateEnquiryDto → EnquiryDb → EnquiryDb
  unfolding trimmed_field
  create id now dto s = if present (trimmed_field dto.website) then s else record {
    enquiries = s.enquiries ++ new_enquiry id now dto ∷ [];
    sent = if sv.mail_works notify_to then s.sent ++ (notify_to, id) ∷ [] else s.sent;
  }
