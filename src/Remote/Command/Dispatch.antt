-- ===== src/Remote/Command/Dispatch.antt =====
-- src/remote_command_handler.rs: `handle_command`. Only reading the system's state is left to the
-- parameter `system_info`. A response leaves out its time.
use aero_nyx_private_ed.Base.{
  ℕ, Bool, true, false, List, [], Option, none, some, Text, codes, list_beq, if◌then◌else◌, Result,
  ok, err,
}
use aero_nyx_private_ed.Remote.Command.{
  RemoteCommandConfig, RemoteCommandData, ErrorCode, unknown_command, Machine, Effect,
}
use aero_nyx_private_ed.Remote.Command.Execute.{Executed, handle_execute}
use aero_nyx_private_ed.Remote.Command.Files.{
  Base64, Uploaded, Downloaded, handle_upload, handle_download,
}
use aero_nyx_private_ed.Remote.Command.Listing.{Entries, handle_list}

pub data Reply : Type 0 where
  executed : Executed → Reply
  uploaded : Uploaded → Reply
  downloaded : Downloaded → Reply
  listed : Entries → Reply
  system : Text → Reply

pub record RemoteCommandResponse : Type 0 where
  pub request_id : Text
  pub success : Bool
  pub result : Option Reply
  pub error : Option ErrorCode

abbrev reply {ℓ} : {A : Type ℓ} → (A → Reply) → Result ErrorCode A → Result ErrorCode Reply
reply f (ok a) = ok (f a)
reply f (err e) = err e

response : Text → Result ErrorCode Reply → RemoteCommandResponse
response request_id (ok r) = record {
  request_id = request_id;
  success = true;
  result = some r;
  error = none;
}
response request_id (err e) = record {
  request_id = request_id;
  success = false;
  result = none;
  error = some e;
}

-- `none` is a panic of the handler: there is no response.
abbrev responded {ℓ} :
    {A : Type ℓ} → Text → (A → Reply) → Option (Result ErrorCode A) → Option RemoteCommandResponse
responded request_id f none = none
responded request_id f (some r) = some (response request_id (reply f r))

abbrev respond {ℓ} :
    {A : Type ℓ}
    → Text
    → (A → Reply)
    → Option (Result ErrorCode A) × List Effect
    → Option RemoteCommandResponse × List Effect
respond request_id f r = (responded request_id f r.0, r.1)

module _ (share : ℕ → ℕ → ℕ) (b : Base64) (system_info : RemoteCommandData → Result ErrorCode Text)
    (config : RemoteCommandConfig) (m : Machine) where
  unfoldable pub handle_command :
      Text → RemoteCommandData → Option RemoteCommandResponse × List Effect
  unfolding response
  handle_command request_id c =
      if list_beq c.command_type (codes "execute")
      then respond request_id executed (handle_execute share config m c)
      else if list_beq c.command_type (codes "upload")
      then (let r = handle_upload b config m c in respond request_id uploaded (some r.0, r.1))
      else if list_beq c.command_type (codes "download")
      then respond request_id downloaded (some (handle_download b config m c), [])
      else if list_beq c.command_type (codes "list")
      then respond request_id listed (some (handle_list config m c), [])
      else if list_beq c.command_type (codes "system_info")
      then respond request_id system (some (system_info c), [])
      else (some (response request_id (err unknown_command)), [])
