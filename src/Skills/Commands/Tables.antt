-- ===== src/Skills/Commands/Tables.antt =====
-- The patterns of `_compile_patterns`, as Python's regular expressions.
use apate.Prelude.{String, List, [], ◌∷◌, nat_eq, string_eq}

-- The names of the techniques, each with its expression.
abbrev pub Patterns : Type 0
Patterns = List (String × String)

abbrev pub recon_patterns : Patterns
recon_patterns =
    ("system_info", "\\b(uname|hostname|whoami|id|uptime|arch)\\b")
    ∷ ("network_scan", "\\b(nmap|netstat|ss|ifconfig|ip\\s+addr)\\b")
    ∷ ("process_enum", "\\b(ps|top|htop|pgrep|pidof)\\b")
    ∷ ("user_enum", "\\b(cat|less|more|grep)\\s+.*(/etc/passwd|/etc/group|/etc/shadow)\\b")
    ∷ ("service_enum", "\\b(systemctl|service|chkconfig)\\b")
    ∷ []

abbrev pub persistence_patterns : Patterns
persistence_patterns =
    ("cron_job", "\\b(crontab|/etc/cron)\\b")
    ∷ ("ssh_key", "\\b(ssh-keygen|authorized_keys)\\b")
    ∷ ("rc_file", "\\b(\\.bashrc|\\.bash_profile|\\.profile|rc\\.local)\\b")
    ∷ ("systemd_service", "\\b(systemctl.*enable|/etc/systemd)\\b")
    ∷ ("at_job", "\\b(at|batch)\\b")
    ∷ []

abbrev pub privesc_patterns : Patterns
privesc_patterns =
    ("sudo_abuse", "\\b(sudo|su)\\b")
    ∷ ("suid_search", "find.*-perm.*4000")
    ∷ ("capability_search", "getcap.*-r")
    ∷ ("passwd_change", "\\b(passwd|chpasswd)\\b")
    ∷ ("sudoers_edit", "/etc/sudoers")
    ∷ []

abbrev pub lateral_patterns : Patterns
lateral_patterns =
    ("ssh_connection", "\\bssh\\s+.*@")
    ∷ ("scp_transfer", "\\bscp\\b")
    ∷ ("rsync_transfer", "\\brsync\\b")
    ∷ ("network_share", "\\b(mount|smbclient|showmount)\\b")
    ∷ []

abbrev pub exfil_patterns : Patterns
exfil_patterns =
    ("wget_download", "\\b(wget|curl).*http")
    ∷ ("base64_encode", "\\bbase64\\b")
    ∷ ("tar_archive", "\\b(tar|zip|gzip|bzip2)\\b")
    ∷ ("nc_transfer", "\\b(nc|netcat)\\b")
    ∷ ("dns_exfil", "\\b(nslookup|dig|host).*\\$")
    ∷ []

abbrev pub execution_patterns : Patterns
execution_patterns =
    ("reverse_shell", "(bash.*-i|sh.*-i|/bin/(ba)?sh.*0>&1|nc.*-e)")
    ∷ ("download_execute", "(wget|curl).*\\|.*(bash|sh|python)")
    ∷ ("encoded_command", "(echo.*\\|.*base64.*-d|eval.*\\$\\()")
    ∷ ("python_execution", "python.*-c")
    ∷ ("perl_execution", "perl.*-e")
    ∷ []

abbrev pub evasion_patterns : Patterns
evasion_patterns =
    ("history_clear", "\\b(history.*-c|unset.*HISTFILE|rm.*bash_history)\\b")
    ∷ ("log_clear", "\\b(rm|truncate|>).*(/var/log|\\.log)\\b")
    ∷ ("process_hide", "\\b(nohup|disown|&)\\s*$")
    ∷ ("timestamp_modify", "\\b(touch.*-t|touch.*-d)\\b")
    ∷ []

abbrev pub credential_patterns : Patterns
credential_patterns =
    ("passwd_dump", "(cat|grep|awk).*/(etc/)?shadow")
    ∷ ("ssh_key_theft", "(cat|cp).*\\.ssh/(id_rsa|id_dsa)")
    ∷ ("history_search", "(cat|grep).*history.*password")
    ∷ ("memory_dump", "\\b(gcore|/proc/.*mem)\\b")
    ∷ []
