-- ===== src/Risk/Rules.antt =====
-- backend/app/core/risk_policy.py: the rules of the risk policy, in the order of the source. The
-- patterns are texts; what `re.search` says of a pattern and a command is a parameter.
use mama_ai.Prelude.{String, List, [], ◌∷◌}
use mama_ai.Task.{RiskLevel, medium, high, critical}

pub data PermissionDecision : Type 0 where
  allow require_approval deny : PermissionDecision

pub record RiskRule : Type 0 where
  pub category : String
  pub pattern : String
  pub risk_level : RiskLevel
  pub decision : PermissionDecision
  pub reason : String

abbrev pub credential_theft : RiskRule
credential_theft = record {
  category = "credential_theft";
  pattern =
      "\\b(?:steal|extract|dump|collect)\\b.*\\b(?:passwords?|credentials?|tokens?|cookies?)\\b";
  risk_level = critical;
  decision = deny;
  reason = "Requests to steal or extract private credentials are prohibited.";
}

abbrev pub security_bypass : RiskRule
security_bypass = record {
  category = "security_bypass";
  pattern =
      "\\b(?:disable|bypass|evade|remove)\\b.*\\b(?:security|antivirus|authentication|approval|permission)\\b";
  risk_level = critical;
  decision = deny;
  reason = "Mama AI cannot bypass authentication, approval, or device-security controls.";
}

abbrev pub malicious_software : RiskRule
malicious_software = record {
  category = "malicious_software";
  pattern = "\\b(?:keylogger|ransomware|credential\\s*theft|password\\s*stealer)\\b";
  risk_level = critical;
  decision = deny;
  reason = "Malicious software operations are prohibited.";
}

abbrev pub financial_transaction : RiskRule
financial_transaction = record {
  category = "financial_transaction";
  pattern = "\\b(?:pay|send|transfer)\\b.*\\b(?:money|payment|funds?|rupees?|inr|dollars?|usd)\\b";
  risk_level = critical;
  decision = require_approval;
  reason = "Financial transactions require explicit user approval before execution.";
}

abbrev pub upi_transaction : RiskRule
upi_transaction = record {
  category = "upi_transaction";
  pattern = "(?:\\bupi\\b.*\\b(?:pay|send|transfer)\\b|\\b(?:pay|send|transfer)\\b.*\\bupi\\b)";
  risk_level = critical;
  decision = require_approval;
  reason = "UPI transactions require explicit user approval.";
}

abbrev pub purchase : RiskRule
purchase = record {
  category = "purchase";
  pattern = "\\b(?:buy|purchase|place\\s+(?:the\\s+)?order|confirm\\s+(?:the\\s+)?order)\\b";
  risk_level = critical;
  decision = require_approval;
  reason = "Purchases and orders require explicit approval.";
}

abbrev pub system_power : RiskRule
system_power = record {
  category = "system_power";
  pattern = "\\b(?:shutdown|shut\\s+down|restart|reboot|factory\\s+reset)\\b";
  risk_level = critical;
  decision = require_approval;
  reason = "Power and factory-reset operations require explicit approval.";
}

abbrev pub disk_destruction : RiskRule
disk_destruction = record {
  category = "disk_destruction";
  pattern = "\\b(?:format|wipe|erase)\\b.*\\b(?:drive|disk|partition)\\b";
  risk_level = critical;
  decision = require_approval;
  reason = "Disk modification can cause permanent data loss.";
}

abbrev pub external_communication : RiskRule
external_communication = record {
  category = "external_communication";
  pattern =
      "\\b(?:send|post|publish)\\b.*\\b(?:email|message|sms|whatsapp|telegram|tweet|social\\s+media|public\\s+post)\\b";
  risk_level = critical;
  decision = require_approval;
  reason = "External communications require approval before they are sent.";
}

abbrev pub file_deletion : RiskRule
file_deletion = record {
  category = "file_deletion";
  pattern = "\\b(?:delete|remove|erase)\\b.*\\b(?:file|folder|directory|document|photo|video)\\b";
  risk_level = high;
  decision = require_approval;
  reason = "Deleting files or folders requires approval.";
}

abbrev pub terminal_execution : RiskRule
terminal_execution = record {
  category = "terminal_execution";
  pattern =
      "\\b(?:run|execute|open|launch)\\b.*\\b(?:cmd|command\\s+prompt|powershell|terminal|shell)\\b";
  risk_level = high;
  decision = require_approval;
  reason = "Terminal and shell access requires approval.";
}

abbrev pub software_change : RiskRule
software_change = record {
  category = "software_change";
  pattern =
      "\\b(?:install|uninstall|remove)\\b.*\\b(?:application|app|program|software|package|driver)\\b";
  risk_level = high;
  decision = require_approval;
  reason = "Installing or removing software requires approval.";
}

abbrev pub system_configuration : RiskRule
system_configuration = record {
  category = "system_configuration";
  pattern =
      "\\b(?:change|modify|edit|disable|enable)\\b.*\\b(?:registry|firewall|system\\s+settings|network\\s+settings)\\b";
  risk_level = high;
  decision = require_approval;
  reason = "System configuration changes require approval.";
}

abbrev pub recording : RiskRule
recording = record {
  category = "recording";
  pattern =
      "\\b(?:record|capture|activate|turn\\s+on)\\b.*\\b(?:camera|microphone|webcam|audio)\\b";
  risk_level = high;
  decision = require_approval;
  reason = "Camera or microphone recording requires approval.";
}

abbrev pub file_modification : RiskRule
file_modification = record {
  category = "file_modification";
  pattern =
      "\\b(?:create|write|edit|modify|rename|move|copy)\\b.*\\b(?:file|folder|directory|document)\\b";
  risk_level = medium;
  decision = allow;
  reason = "The command modifies local files and must be logged.";
}

abbrev pub file_transfer : RiskRule
file_transfer = record {
  category = "file_transfer";
  pattern = "\\b(?:upload|download)\\b.*\\b(?:file|document|photo|video|archive)\\b";
  risk_level = medium;
  decision = allow;
  reason = "The command transfers data and must be logged.";
}

-- `RiskPolicy._build_rules`
unfoldable pub build_rules : List RiskRule
build_rules =
    credential_theft ∷ security_bypass ∷ malicious_software ∷ financial_transaction
    ∷ upi_transaction ∷ purchase ∷ system_power ∷ disk_destruction ∷ external_communication
    ∷ file_deletion ∷ terminal_execution ∷ software_change ∷ system_configuration ∷ recording
    ∷ file_modification ∷ file_transfer ∷ []
