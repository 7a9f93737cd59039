-- ===== src/Provider.antt =====
-- internal/provider/provider.go: messages and the interface of a provider.
pub mod Settings
pub mod Deepseek
pub mod Mock
use deepseek_project.Base.{Bytes, codes, List}
use Settings.{GenerationSettings}

abbrev pub role_system : Bytes
role_system = codes "system"

abbrev pub role_user : Bytes
role_user = codes "user"

abbrev pub role_assistant : Bytes
role_assistant = codes "assistant"

pub record Message : Type 0 where
  pub role : Bytes
  pub content : Bytes

abbrev pub finish_stop : Bytes
finish_stop = codes "stop"

abbrev pub finish_length : Bytes
finish_length = codes "length"

abbrev pub finish_canceled : Bytes
finish_canceled = codes "cancelled"

pub record CompletionRequest : Type 0 where
  pub settings : GenerationSettings
  pub messages : List Message

pub record CompletionResult : Type 0 where
  pub full_text : Bytes
  pub finish_reason : Bytes
