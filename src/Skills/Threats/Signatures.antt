-- ===== src/Skills/Threats/Signatures.antt =====
-- The signatures that a new ThreatLibrary holds.
use apate.Prelude.{some, List, [], ◌∷◌, nat_eq, string_eq}
use apate.Skills.Threats.{ThreatSignature, ThreatLibrary, add_all}

unfoldable pub default_signatures : List ThreatSignature
default_signatures =
    record {
      id = "reverse_shell_bash";
      name = "Bash Reverse Shell";
      category = "execution";
      severity = "critical";
      description = "Common bash reverse shell pattern";
      indicators =
          "bash -i >& /dev/tcp/" ∷ "bash -c 'bash -i >& /dev/tcp/" ∷ "sh -i >& /dev/tcp/" ∷ [];
      mitre_attack_id = some "T1059.004";
      references = [];
    }
    ∷ record {
      id = "reverse_shell_netcat";
      name = "Netcat Reverse Shell";
      category = "execution";
      severity = "critical";
      description = "Netcat-based reverse shell";
      indicators = "nc -e /bin/bash" ∷ "nc -e /bin/sh" ∷ "netcat -e /bin/bash" ∷ [];
      mitre_attack_id = some "T1059.004";
      references = [];
    }
    ∷ record {
      id = "python_reverse_shell";
      name = "Python Reverse Shell";
      category = "execution";
      severity = "critical";
      description = "Python-based reverse shell";
      indicators =
          "python -c 'import socket" ∷ "python3 -c 'import socket" ∷ "__import__('socket')" ∷ [];
      mitre_attack_id = some "T1059.006";
      references = [];
    }
    ∷ record {
      id = "suid_enumeration";
      name = "SUID Binary Enumeration";
      category = "privilege_escalation";
      severity = "high";
      description = "Search for SUID binaries for privilege escalation";
      indicators =
          "find / -perm -4000" ∷ "find / -perm -u=s" ∷ "find / -user root -perm -4000" ∷ [];
      mitre_attack_id = some "T1548.001";
      references = [];
    }
    ∷ record {
      id = "passwd_shadow_dump";
      name = "Password File Dumping";
      category = "credential_access";
      severity = "high";
      description = "Attempting to read password files";
      indicators = "cat /etc/shadow" ∷ "cat /etc/passwd" ∷ "grep -v '^#' /etc/shadow" ∷ [];
      mitre_attack_id = some "T1003.008";
      references = [];
    }
    ∷ record {
      id = "ssh_key_persistence";
      name = "SSH Key Persistence";
      category = "persistence";
      severity = "high";
      description = "Installing SSH keys for persistence";
      indicators =
          "echo.*>> ~/.ssh/authorized_keys" ∷ "echo.*> ~/.ssh/authorized_keys"
          ∷ "cat.*>> ~/.ssh/authorized_keys" ∷ [];
      mitre_attack_id = some "T1098.004";
      references = [];
    }
    ∷ record {
      id = "cron_persistence";
      name = "Cron Job Persistence";
      category = "persistence";
      severity = "high";
      description = "Creating cron jobs for persistence";
      indicators = "crontab -e" ∷ "echo.*> /etc/cron" ∷ "echo.*> /var/spool/cron" ∷ [];
      mitre_attack_id = some "T1053.003";
      references = [];
    }
    ∷ record {
      id = "history_clearing";
      name = "Command History Clearing";
      category = "defense_evasion";
      severity = "medium";
      description = "Clearing command history to hide tracks";
      indicators =
          "history -c" ∷ "rm ~/.bash_history" ∷ "unset HISTFILE" ∷ "export HISTFILESIZE=0" ∷ [];
      mitre_attack_id = some "T1070.003";
      references = [];
    }
    ∷ record {
      id = "log_tampering";
      name = "Log File Tampering";
      category = "defense_evasion";
      severity = "high";
      description = "Modifying or deleting log files";
      indicators = "rm /var/log/" ∷ "echo '' > /var/log/" ∷ "truncate -s 0 /var/log/" ∷ [];
      mitre_attack_id = some "T1070.002";
      references = [];
    }
    ∷ record {
      id = "webshell_upload";
      name = "Web Shell Upload Pattern";
      category = "persistence";
      severity = "critical";
      description = "Patterns indicating web shell upload";
      indicators =
          "echo.*<?php.*> /var/www" ∷ "echo.*<?php.*> /usr/share/nginx" ∷ "wget.*shell.php" ∷ [];
      mitre_attack_id = some "T1505.003";
      references = [];
    }
    ∷ record {
      id = "credential_harvesting";
      name = "Credential Harvesting";
      category = "credential_access";
      severity = "high";
      description = "Searching for credentials in files";
      indicators =
          "grep -r password" ∷ "find / -name '*password*'" ∷ "grep -r 'api_key'"
          ∷ "grep -r 'secret'" ∷ [];
      mitre_attack_id = some "T1552.001";
      references = [];
    }
    ∷ record {
      id = "linpeas_enum";
      name = "LinPEAS Enumeration Tool";
      category = "reconnaissance";
      severity = "high";
      description = "Linux privilege escalation enumeration script";
      indicators = "linpeas.sh" ∷ "curl.*linpeas" ∷ "wget.*linpeas" ∷ [];
      mitre_attack_id = some "T1592";
      references = [];
    }
    ∷ []

unfoldable pub new_library : ThreatLibrary
new_library = add_all default_signatures []
