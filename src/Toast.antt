-- ===== src/Toast.antt =====
-- src/client/toast.ts: the toast of a control request's outcome. The translation function is a
-- parameter; it gets a key and the values of its placeholders.
use dsh_full_remote.Prelude.{
  ℕ, ◌≡◌, refl, Bool, true, false, not, ◌&&◌, Option, none, some, List, [], ◌∷◌, ◌++◌, arith,
  get_or, if◌then◌else◌,
}
use dsh_full_remote.Prelude.Text.{Text, codes, text_eq}
use dsh_full_remote.Net.Hosts.{decimal}

-- `ToastKind`
pub data Kind : Type 0 where
  error warn success : Kind

-- `ToastIntent`
pub data Intent : Type 0 where
  start stop listen rotate : Intent

-- `PanelToastModel`
pub record Toast : Type 0 where
  pub kind : Kind
  pub text : Text

-- The part of `ProxyStatus` that is read.
pub record Status : Type 0 where
  pub running : Bool
  pub listen_at : Option (Text × ℕ)
  pub backend : Option Text
  pub reason : Option Text

-- `bindOf`
unfoldable pub bind_of : Status → Text
bind_of s = elim s.listen_at [ none ↦ [] | some (host, port) ↦ host ++ (codes ":" ++ decimal port) ]

-- `reason !== undefined && reason !== ''`
abbrev pub has_reason : Option Text → Bool
has_reason none = false
has_reason (some reason) = not (text_eq reason [])

abbrev pub is_listen : Intent → Bool
is_listen listen = true
is_listen _ = false

abbrev pub Args : Type 0
Args = List (Text × Text)

abbrev pub is_success : Kind → Bool
is_success success = true
is_success error = false
is_success warn = false

abbrev pub has_effect : Status → Intent → Bool
has_effect status start = status.running
has_effect status stop = true
has_effect status listen = true
has_effect status rotate = true

module _ (t : Text → Args → Text) where
  abbrev pub failure : Text → Args → Toast
  failure key args = record { kind = error; text = t key args }

  -- `toastFromReason`
  unfoldable pub toast_from_reason : Text → Status → Intent → Toast
  toast_from_reason reason status intent =
      let bind = bind_of status in
      let backend = get_or status.backend [] in
      let places = (codes "bind", bind) ∷ (codes "backend", backend) ∷ [] in
      if text_eq reason (codes "listen-failed")
      then failure
          (if is_listen intent then codes "error.listenFailed" else codes "error.startListenFailed")
          places
      else if text_eq reason (codes "self-loop")
      then failure (codes "error.startSelfLoop") places
      else if text_eq reason (codes "disposed")
      then failure (codes "error.startDisposed") []
      else if text_eq reason (codes "invalid-listen")
      then failure (codes "error.invalidListenServer") []
      else if text_eq reason (codes "listen-failed-restored")
      then record {
        kind = warn;
        text = t (codes "error.listenRestored") ((codes "bind", bind) ∷ []);
      }
      else if text_eq reason (codes "rotate-save-failed")
      then failure (codes "error.rotateSaveFailed") []
      else if text_eq reason (codes "tls-failed")
      then failure (codes "error.tlsFailed") []
      else failure (codes "error.unknownReason") ((codes "reason", reason) ∷ [])

  abbrev pub succeeded : Text → Toast
  succeeded key = record { kind = success; text = t key [] }

  -- The end of `toastFromStatus`, with no reason.
  unfoldable pub toast_without_reason : Status → Intent → Toast
  toast_without_reason status start =
      if status.running
      then succeeded (codes "toast.started")
      else failure (codes "error.startUnknown") []
  toast_without_reason status stop = succeeded (codes "toast.stopped")
  toast_without_reason status listen = succeeded (codes "toast.listenApplied")
  toast_without_reason status rotate = succeeded (codes "toast.tokenRotated")

  -- The toast of a reported reason: a rotation has taken effect before its restart failed.
  unfoldable pub toast_with_reason : Text → Status → Intent → Toast
  toast_with_reason reason status rotate = record {
    kind = warn;
    text =
        t (codes "toast.tokenRotatedWithIssue")
          ((codes "detail", (toast_from_reason reason status rotate).text) ∷ []);
  }
  toast_with_reason reason status start = toast_from_reason reason status start
  toast_with_reason reason status stop = toast_from_reason reason status stop
  toast_with_reason reason status listen = toast_from_reason reason status listen

  -- `toastFromStatus`
  unfoldable pub toast_from_status : Status → Intent → Toast
  unfolding toast_without_reason toast_with_reason
  toast_from_status status intent =
      if has_reason status.reason
      then toast_with_reason (get_or status.reason []) status intent
      else toast_without_reason status intent

  -- `toastFromCaught`: the message of an `Error`, empty for anything else.
  unfoldable pub toast_from_caught : Text → Toast
  toast_from_caught message =
      if text_eq message (codes "forbidden")
      then failure (codes "error.forbidden") []
      else if text_eq message (codes "loopback-required")
      then failure (codes "error.loopbackRequired") []
      else if text_eq message (codes "token-read-disabled")
      then failure (codes "error.tokenReadDisabled") []
      else if text_eq message (codes "invalid-request")
      then failure (codes "error.invalidRequest") []
      else if text_eq message (codes "invalid-base")
      then failure (codes "error.invalidInviteBase") []
      else if text_eq message (codes "not-running")
      then failure (codes "error.notRunning") []
      else if text_eq message (codes "tls-unsupported")
      then failure (codes "tunnel.errorTlsUnsupported") []
      else if text_eq message (codes "disposed")
      then failure (codes "error.startDisposed") []
      else if text_eq message (codes "action-failed")
      then failure (codes "error.generic") []
      else if not (text_eq message [])
      then failure (codes "error.network") ((codes "detail", message) ∷ [])
      else failure (codes "error.generic") []

  -- `toastFromTunnelDetail`
  unfoldable pub toast_from_tunnel_detail : Text → Option Toast
  toast_from_tunnel_detail detail =
      if text_eq detail (codes "download-failed")
      then some (failure (codes "tunnel.errorDownloadFailed") [])
      else if text_eq detail (codes "integrity-failed")
      then some (failure (codes "tunnel.errorIntegrityFailed") [])
      else if text_eq detail (codes "configured-path-invalid")
      then some (failure (codes "tunnel.errorConfiguredPathInvalid") [])
      else if text_eq detail (codes "unsupported-platform")
      then some (failure (codes "tunnel.errorUnsupportedPlatform") [])
      else if text_eq detail (codes "spawn-failed")
      then some (failure (codes "tunnel.errorSpawnFailed") [])
      else if text_eq detail (codes "connect-failed")
      then some (failure (codes "tunnel.errorConnectFailed") [])
      else if text_eq detail (codes "connect-timeout")
      then some (failure (codes "tunnel.errorConnectTimeout") [])
      else if text_eq detail (codes "exited")
      then some (record { kind = warn; text = t (codes "tunnel.errorExited") [] })
      else none

  toast_with_reason-kind :
      (reason : Text) (status : Status) (intent : Intent)
      → is_success (toast_with_reason reason status intent).kind ≡ false
  unfolding toast_with_reason toast_from_reason
  toast_with_reason-kind reason status start = ground arith
  toast_with_reason-kind reason status stop = ground arith
  toast_with_reason-kind reason status listen = ground arith
  toast_with_reason-kind reason status rotate = refl

  toast_without_reason-kind :
      (status : Status) (intent : Intent)
      → is_success (toast_without_reason status intent).kind ≡ has_effect status intent
  unfolding toast_without_reason
  toast_without_reason-kind status start = ground arith
  toast_without_reason-kind status stop = refl
  toast_without_reason-kind status listen = refl
  toast_without_reason-kind status rotate = refl

  -- The panel reports a success exactly when the status has no reason and, for a start, says
  -- that the proxy runs.
  pub toast_from_status-kind :
      (status : Status) (intent : Intent)
      → is_success (toast_from_status status intent).kind
        ≡ (not (has_reason status.reason) && has_effect status intent)
  unfolding toast_from_status
  toast_from_status-kind status intent = ground (
    arith,
    toast_with_reason-kind (get_or status.reason []) status intent,
    toast_without_reason-kind status intent,
  )
